-- ===== src/Serverless/Dns/Names.antt =====
-- Names of labels are read as they are written.
use lanet.Base.{
  ℕ, zero, suc, ◌+◌, ◌≤◌, ◌≡◌, refl, ap, ◌∙◌, true, some, List, [], ◌∷◌, ◌++◌, arith, length,
  length-append, take, drop, take_all, drop_all, All, Text,
}
use mathlib.Core.List.{append_assoc}
use lanet.Serverless.Dns.{valid_dns_label_bytes, with_label, parse_from, parse_dns_name}

-- A name as a message carries it: each label behind its length, and a zero.
unfoldable pub encoded : List Text → List ℕ
encoded [] = 0 ∷ []
encoded (label ∷ labels) = length label ∷ label ++ encoded labels

unfoldable pub dotted_from : Text → List Text → Text
dotted_from sb [] = sb
dotted_from sb (label ∷ labels) = dotted_from (with_label sb label) labels

-- The labels with dots between them.
abbrev pub dotted : List Text → Text
dotted labels = dotted_from [] labels

abbrev pub IsDnsLabel : Text → Type 0
IsDnsLabel label = (length label ≤ 63) × (valid_dns_label_bytes label ≡ true)

valid-nonempty : (s : Text) → valid_dns_label_bytes s ≡ true → 1 ≤ length s
unfolding valid_dns_label_bytes
valid-nonempty [] h = absurd cc
valid-nonempty (c ∷ s) h = omega arith

-- One round of the loop.
parse_label :
    (left off : ℕ) (sb label : Text) (body : List ℕ)
    → length label ≤ 63
    → length label ≤ length body
    → take (length label) body ≡ label
    → valid_dns_label_bytes label ≡ true
    → parse_from (suc left) sb off (length label ∷ body)
      ≡ parse_from left (with_label sb label) (off + 1 + length label) (drop (length label) body)
unfolding parse_from
parse_label left off sb label body short there taken valid =
    rw (taken, valid) (ground (arith, valid-nonempty label valid))

parse_from-encoded :
    (left off : ℕ) (sb : Text) (labels : List Text) (rest : List ℕ)
    → length labels ≤ left
    → All IsDnsLabel labels
    → parse_from left sb off (encoded labels ++ rest)
      ≡ some (dotted_from sb labels, off + length (encoded labels))
unfolding parse_from encoded dotted_from
parse_from-encoded zero off sb [] rest h hs = refl
parse_from-encoded (suc left) off sb [] rest h hs = refl
parse_from-encoded zero off sb (label ∷ labels) rest h hs = absurd (omega arith)
parse_from-encoded (suc left) off sb (label ∷ labels) rest h hs =
    let later = encoded labels ++ rest in
    let n = length label in
    parse_label left off sb label (label ++ encoded labels ++ rest) hs.0.0
      (omega
        (arith, ap length (append_assoc label (encoded labels) rest), length-append label later))
      (ap (take n) (append_assoc label (encoded labels) rest) ∙ take_all n label later refl) hs.0.1
    ∙ (ap (parse_from left (with_label sb label) (off + 1 + n))
          (ap (drop n) (append_assoc label (encoded labels) rest) ∙ drop_all n label later refl)
        ∙ (parse_from-encoded left (off + 1 + n) (with_label sb label) labels rest (omega arith)
              hs.1
            ∙ ap (λ k. some (dotted_from (with_label sb label) labels, k))
                (omega (arith, length-append label (encoded labels)))))

-- A name of at most sixteen labels, each of 1 to 63 name bytes, is read with dots between the
-- labels, and the offset is behind it, whatever stands around it.
pub parse_dns_name-encoded :
    (before rest : List ℕ) (labels : List Text)
    → length labels ≤ 16
    → All IsDnsLabel labels
    → parse_dns_name (before ++ (encoded labels ++ rest)) (length before)
      ≡ some (dotted labels, length before + length (encoded labels))
unfolding parse_dns_name
parse_dns_name-encoded before rest labels h hs =
    ap (parse_from 16 [] (length before))
      (drop_all (length before) before (encoded labels ++ rest) refl)
    ∙ parse_from-encoded 16 (length before) [] labels rest h hs
