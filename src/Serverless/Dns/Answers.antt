-- ===== src/Serverless/Dns/Answers.antt =====
-- A question for the full name of a member is answered with the member's address.
use lanet.Base.{
  ℕ, zero, suc, ◌+◌, ◌-◌, ◌≡◌, refl, sym, ap, ◌∙◌, false, Option, some, List, [], ◌∷◌, ◌++◌, arith,
  ltb, length, length-append, get_or, take, take_all, Text, ok,
}
use mathlib.Core.List.{append_assoc}
use lanet.Serverless.Hostnames.{MemberRef}
use lanet.Serverless.Hostnames.Targets.{Ip}
use lanet.Serverless.Dns.{
  reply, u16_of, header, question, answer, answer_ip, address_for, answer_member, resolve,
  handle_name,
}

get_or-behind :
    (xs ys : List ℕ) (i j : ℕ) → j ≡ length xs + i → get_or (xs ++ ys) j 0 ≡ get_or ys i 0
get_or-behind [] ys i j e = ap (λ k. get_or ys k 0) (omega arith)
get_or-behind (x ∷ xs) ys i zero e = absurd (omega arith)
get_or-behind (x ∷ xs) ys i (suc j) e = get_or-behind xs ys i j (omega arith)

-- A message of one question of class IN for an address: the id, the flags, six bytes of counts, the
-- name, and what stands behind the question.
abbrev pub ask : ℕ → ℕ → ℕ → ℕ → List ℕ → List ℕ → List ℕ → List ℕ
ask id0 id1 flags0 flags1 counts name tail =
    id0 ∷ id1 ∷ flags0 ∷ flags1 ∷ 0 ∷ 1 ∷ counts ++ (name ++ (0 ∷ 1 ∷ 0 ∷ 1 ∷ tail))

-- The answer to it.
abbrev pub answered : ℕ → ℕ → List ℕ → List ℕ → List ℕ
answered id0 id1 name ip =
    id0 ∷ id1 ∷ 132 ∷ 0 ∷ 0 ∷ 1 ∷ 0 ∷ 1 ∷ 0 ∷ 0 ∷ 0 ∷ 0 ∷ (name ++ (0 ∷ 1 ∷ 0 ∷ 1 ∷ []))
    ++ answer 1 ip

-- The question is echoed as it came.
question-ask :
    (id0 id1 f0 f1 a b c d e f : ℕ) (name tail : List ℕ)
    → question (ask id0 id1 f0 f1 (a ∷ b ∷ c ∷ d ∷ e ∷ f ∷ []) name tail) (12 + length name + 4)
      ≡ name ++ (0 ∷ 1 ∷ 0 ∷ 1 ∷ [])
question-ask id0 id1 f0 f1 a b c d e f name tail =
    let shown = name ++ (0 ∷ 1 ∷ 0 ∷ 1 ∷ []) in
    ap (take (12 + length name + 4 - 12)) (sym (append_assoc name (0 ∷ 1 ∷ 0 ∷ 1 ∷ []) tail))
    ∙ take_all (12 + length name + 4 - 12) shown tail
        (omega (arith, length-append name (0 ∷ 1 ∷ 0 ∷ 1 ∷ [])))

byte-ask :
    (id0 id1 f0 f1 a b c d e f : ℕ) (name tail : List ℕ) (i j : ℕ)
    → j ≡ 12 + length name + i
    → get_or (ask id0 id1 f0 f1 (a ∷ b ∷ c ∷ d ∷ e ∷ f ∷ []) name tail) j 0
      ≡ get_or (0 ∷ 1 ∷ 0 ∷ 1 ∷ tail) i 0
byte-ask id0 id1 f0 f1 a b c d e f name tail i j h =
    get_or-behind (id0 ∷ id1 ∷ f0 ∷ f1 ∷ 0 ∷ 1 ∷ a ∷ b ∷ c ∷ d ∷ e ∷ f ∷ [])
      (name ++ (0 ∷ 1 ∷ 0 ∷ 1 ∷ tail)) (length name + i) j (omega arith)
    ∙ get_or-behind name (0 ∷ 1 ∷ 0 ∷ 1 ∷ tail) i (length name + i) refl

module _ (parse_ip : Text → Option Ip) (members : Option (List MemberRef)) where
  pub handle_name-ask :
      (id0 id1 f0 f1 a b c d e f : ℕ) (name tail : List ℕ) (text : Text)
      → handle_name parse_ip members
          (ask id0 id1 f0 f1 (a ∷ b ∷ c ∷ d ∷ e ∷ f ∷ []) name tail)
          (some (text, 12 + length name))
        ≡ answer_member parse_ip
            (ask id0 id1 f0 f1 (a ∷ b ∷ c ∷ d ∷ e ∷ f ∷ []) name tail)
            (12 + length name + 4)
            1
            (resolve parse_ip members text)
  unfolding handle_name
  handle_name-ask id0 id1 f0 f1 a b c d e f name tail text =
      let msg = ask id0 id1 f0 f1 (a ∷ b ∷ c ∷ d ∷ e ∷ f ∷ []) name tail in
      let byte = byte-ask id0 id1 f0 f1 a b c d e f name tail in
      let off = 12 + length name in
      let type : u16_of msg off ≡ 1 =
        omega (arith, byte 0 off (omega arith), byte 1 (suc off) (omega arith)) in
      let class : u16_of msg (off + 2) ≡ 1 =
        omega (arith, byte 2 (off + 2) (omega arith), byte 3 (suc (off + 2)) (omega arith)) in
      let fits : ltb (length msg) (off + 4) ≡ false =
        ground (arith, length-append name (0 ∷ 1 ∷ 0 ∷ 1 ∷ tail)) in
      rw (fits, class, type) refl

  pub answer_member-ask :
      (id0 id1 f0 f1 a b c d e f : ℕ) (name tail ip : List ℕ) (m : MemberRef)
      → address_for parse_ip 1 m ≡ some ip
      → answer_member parse_ip
          (ask id0 id1 f0 f1 (a ∷ b ∷ c ∷ d ∷ e ∷ f ∷ []) name tail)
          (12 + length name + 4)
          1
          (some (ok m))
        ≡ reply (answered id0 id1 name ip)
  unfolding answer_member answer_ip
  answer_member-ask id0 id1 f0 f1 a b c d e f name tail ip m h =
      let msg = ask id0 id1 f0 f1 (a ∷ b ∷ c ∷ d ∷ e ∷ f ∷ []) name tail in
      ap (answer_ip msg (12 + length name + 4) 1) h
      ∙ ap (λ q. reply (header msg 0 1 1 ++ q ++ answer 1 ip))
          (question-ask id0 id1 f0 f1 a b c d e f name tail)
