-- ===== src/Ctl/Group/Restore/Members.antt =====
-- The node registry that a restart rebuilds from the member rows.
use lanet.Base.{
  ℕ, Time, ◌≡◌, ◌⊎◌, inl, inr, refl, sym, ◌∙◌, List, [], ◌∷◌, Option, none, some, arith, ok,
  ok-injective, Result, subst, Text, text_eq, text_eq→eq, Bool-cases, lookup, lookup-insert,
}
use lanet.Netip.{Netip, Addr}
use lanet.Ctl.Node
use lanet.Ctl.Node.Invariant.{IsValid as NodesIsValid}
use lanet.Ctl.Node.Calls.{restore_node-IsValid, restore_node-inv, restore_node-cases}
use lanet.Ctl.Group.Types.{Group, Registry, MemberRow, Statement, Error}
use lanet.Ctl.Group.Monad.{of_node}
use lanet.Ctl.Group.Rules.{lift_rule, of_node-ok}
use lanet.Ctl.Group.Restore.{restore_members, restored_node}

-- The node `m` carries what the row says: the peer, its name, system and IPv4 address, and the
-- row's IPv6 address if it has one.
pub record Carries (net : Netip) (row : MemberRow) (m : Node.Node) : Type 0 where
  pub same_peer : m.peer_id ≡ row.peer_id
  pub same_name : m.name ≡ row.name
  pub same_os : m.os ≡ row.os
  pub same_ip : m.virtual_ip ≡ row.virtual_ip
  pub same_ipv6 :
      (row.virtual_ipv6 ≡ [])
      ⊎ ((b : Addr) × (net.parse_addr row.virtual_ipv6 ≡ some b)
          × (m.virtual_ipv6 ≡ net.print_addr b))

module _ (net : Netip) (n : ℕ) (nodes : Node.Registry) (v : NodesIsValid net n nodes) (now : Time)
    (row : MemberRow) (nodes' : Node.Registry)
    (done : Node.restore_node net nodes (restored_node row now) now ≡ ok nodes') where
  -- The peer of a row that is restored had a node before, or it has one that carries the row.
  restored-Carries :
      (m : Node.Node) × (lookup row.peer_id nodes'.nodes ≡ some m)
      × ((lookup row.peer_id nodes.nodes ≡ some m) ⊎ Carries net row m)
  restored-Carries =
      let (valid, found) =
        restore_node-cases net n nodes v now (restored_node row now) nodes' done in
      elim found [
        | inl (m, known, same) ↦ (m, rw same known, inl known)
        | inr (a, b, new, pa, within, six, free, free6, entered, at, at6) ↦ (
          record (restored_node row now) { virtual_ipv6 = net.print_addr b },
          entered,
          inr (record {
            same_peer = refl;
            same_name = refl;
            same_os = refl;
            same_ip = refl;
            same_ipv6 = elim six [
              | inl (empty, derived) ↦ inl empty
              | inr (parsed, inside) ↦ inr (b, parsed, refl)
            ];
          }),
        )
      ]

  -- It leaves every other peer's node as it was.
  restored-others :
      (p : Text)
      → (lookup p nodes'.nodes ≡ lookup p nodes.nodes)
        ⊎ ((row.peer_id ≡ p) × (lookup p nodes.nodes ≡ none))
  restored-others p =
      elim (restore_node-inv net n nodes v now (restored_node row now) nodes' done) [
        | inl (m, known, same) ↦ inl (rw same refl)
        | inr (a, b, new, pa, within, six, free, free6, same) ↦
            elim (Bool-cases (text_eq row.peer_id p)) [
              | inl here ↦
                  let at : row.peer_id ≡ p = text_eq→eq row.peer_id p here in
                  inr (at, subst (λ k. lookup k nodes.nodes ≡ none) at new)
              | inr other ↦ inl (
                  rw same (
                    ground (
                      arith,
                      lookup-insert row.peer_id p
                          (record (restored_node row now) { virtual_ipv6 = net.print_addr b })
                          nodes.nodes,
                    )))
            ]
      ]

-- One of the rows is carried by the node.
unfoldable pub IsFrom : Netip → List MemberRow → Node.Node → Type 0
IsFrom net [] m = ⊥
IsFrom net (row ∷ rows) m = Carries net row m ⊎ IsFrom net rows m

-- The peer of every row has a node.
unfoldable pub AllEntered : List MemberRow → Node.Registry → Type 0
AllEntered [] nodes = Unit {0}
AllEntered (row ∷ rows) nodes =
    ((m : Node.Node) × (lookup row.peer_id nodes.nodes ≡ some m)) × AllEntered rows nodes

-- What the loop leaves: the invariant, the nodes that were there, a node for every row, and no
-- node that is neither of them.
pub record Restored (net : Netip) (n : ℕ) (rows : List MemberRow) (nodes nodes' : Node.Registry)
    : Type 0 where
  pub valid : NodesIsValid net n nodes'
  pub kept :
      (p : Text) (m : Node.Node) → lookup p nodes.nodes ≡ some m → lookup p nodes'.nodes ≡ some m
  pub entered : AllEntered rows nodes'
  pub from :
      (p : Text) (m : Node.Node)
      → lookup p nodes'.nodes ≡ some m
      → (lookup p nodes.nodes ≡ some m) ⊎ IsFrom net rows m

module _ (net : Netip) (n : ℕ) (nodes : Node.Registry) (v : NodesIsValid net n nodes) (now : Time)
    (row : MemberRow) (nodes' nodes'' : Node.Registry) (rows : List MemberRow)
    (done : Node.restore_node net nodes (restored_node row now) now ≡ ok nodes')
    (rest : Restored net n rows nodes' nodes'') where
  step-kept :
      (p : Text) (m : Node.Node) → lookup p nodes.nodes ≡ some m → lookup p nodes''.nodes ≡ some m
  step-kept p m e = elim (restored-others net n nodes v now row nodes' done p) [
    | inl same ↦ rest.kept p m (same ∙ e)
    | inr (at, new) ↦ absurd cc
  ]

  step-IsFrom :
      (p : Text) (m : Node.Node)
      → lookup p nodes''.nodes ≡ some m
      → (lookup p nodes.nodes ≡ some m) ⊎ IsFrom net (row ∷ rows) m
  unfolding IsFrom
  step-IsFrom p m e = elim (rest.from p m e) [
    | inr later ↦ inr (inr later)
    | inl known ↦ elim (restored-others net n nodes v now row nodes' done p) [
      | inl same ↦ inl (sym same ∙ known)
      | inr (at, new) ↦
          let (m', entered, origin) = restored-Carries net n nodes v now row nodes' done in
          elim origin [
            | inl before ↦ absurd cc
            | inr carried ↦
                let same : m' ≡ m = cc in inr (inl (subst (Carries net row) same carried))
          ]
    ]
  ]

  step-Restored : Restored net n (row ∷ rows) nodes nodes''
  unfolding AllEntered
  step-Restored =
      let (m', entered, origin) = restored-Carries net n nodes v now row nodes' done in
      record {
        valid = rest.valid;
        kept = step-kept;
        entered = ((m', rest.kept row.peer_id m' entered), rest.entered);
        from = step-IsFrom;
      }

-- Rows that are restored without an error into a node registry that keeps its invariant: the
-- registry that results keeps it, so that no two members have one address; every node that was
-- there is there unchanged, every row's peer has a node, and every other node than those before
-- carries the name, system, IPv4 address and stored IPv6 address of a row.
pub restore_members-Restored :
    (net : Netip) {S : Type 0} (exec : Statement → S → Option S) (n : ℕ) (grp : Group) (now : Time)
    (rows : List MemberRow) (nodes nodes' : Node.Registry) (r : Registry S)
    → NodesIsValid net n nodes
    → (restore_members net exec grp now nodes rows r).1 ≡ ok nodes'
    → Restored net n rows nodes nodes'
unfolding restore_members AllEntered
restore_members-Restored net exec n grp now [] nodes nodes' r v = λ e.
    subst (Restored net n [] nodes) (ok-injective _ _ e)
      (record { valid = v; kept = λ p m h. h; entered = tt; from = λ p m h. inl h })
restore_members-Restored net {S} exec n grp now (row ∷ rows) nodes nodes' r v =
    let P = λ (o : Registry S × Result Error Node.Registry).
      o.1 ≡ ok nodes' → Restored net n (row ∷ rows) nodes nodes' in
    lift_rule P r (of_node (Node.restore_node net nodes (restored_node row now) now)) _
      (λ _ _ e. cc)
      λ registry' got e.
        let done = of_node-ok _ _ got in
        step-Restored net n nodes v now row registry' nodes' rows done (
          restore_members-Restored net exec n grp now rows registry' nodes' _
            (restore_node-IsValid net n nodes v now (restored_node row now) registry' done).0 e)
