-- ===== src/Go/Address/Laws.antt =====
-- What `net.SplitHostPort` takes apart: `host:port` and `[host]:port`.
use mathlib.Core.List.{append_assoc}
use wlt_traffic.Base.{
  ℕ, ◌≡◌, ◌∙◌, ◌↔◌, inl, inr, refl, sym, ap, subst, false, ◌||◌, none, some, [], ◌∷◌, ◌++◌, ◌==◌,
  arith, Bool-cases, Option-cases,
}
use wlt_traffic.Storage.Types.{GoString}
use wlt_traffic.Go.Address.{
  Split, host_port, occurs, cut_first, cut_last, split_host_port, split_at, bracketed, unbracketed,
}

occurs-append : (c : ℕ) (s t : GoString) → occurs c (s ++ t) ≡ (occurs c s || occurs c t)
unfolding occurs
occurs-append c [] t = refl
occurs-append c (d ∷ s) t = ground (arith, occurs-append c s t)

-- the text is `a`, the byte, and `b`
cut_first-some :
    (c : ℕ) (s a b : GoString)
    → cut_first c s ≡ some (a, b)
    → (s ≡ a ++ c ∷ b) × (occurs c a ≡ false)
unfolding cut_first occurs
cut_first-some c [] a b h = ground (arith, h)
cut_first-some c (d ∷ s) a b h = elim (Bool-cases (d == c)) [
  | inl e ↦ ground (arith, h, e)
  | inr e ↦ elim (Option-cases (cut_first c s)) [
    | inl n ↦ ground (arith, h, e, n)
    | inr ((u, v), n) ↦ ground (arith, h, e, n, cut_first-some c s u v n)
  ]
]

cut_first-append :
    (c : ℕ) (a b : GoString) → occurs c a ≡ false → cut_first c (a ++ c ∷ b) ≡ some (a, b)
unfolding cut_first occurs
cut_first-append c [] b h = ground arith
cut_first-append c (d ∷ a) b h = ground (arith, h, cut_first-append c a b)

cut_last-none : (c : ℕ) (s : GoString) → occurs c s ≡ false → cut_last c s ≡ none
unfolding cut_last occurs
cut_last-none c [] h = refl
cut_last-none c (d ∷ s) h = ground (arith, h, cut_last-none c s)

cut_last-absent : (c : ℕ) (s : GoString) → cut_last c s ≡ none → occurs c s ≡ false
unfolding cut_last occurs
cut_last-absent c [] h = refl
cut_last-absent c (d ∷ s) h = elim (Option-cases (cut_last c s)) [
  | inl n ↦ ground (arith, h, n, cut_last-absent c s n)
  | inr (p, n) ↦ ground (arith, h, n)
]

cut_last-some :
    (c : ℕ) (s a b : GoString)
    → cut_last c s ≡ some (a, b)
    → (s ≡ a ++ c ∷ b) × (occurs c b ≡ false)
unfolding cut_last occurs
cut_last-some c [] a b h = ground (arith, h)
cut_last-some c (d ∷ s) a b h = elim (Option-cases (cut_last c s)) [
  | inl n ↦ ground (arith, h, n, cut_last-absent c s n)
  | inr ((u, v), n) ↦ ground (arith, h, n, cut_last-some c s u v n)
]

cut_last-append :
    (c : ℕ) (a b : GoString) → occurs c b ≡ false → cut_last c (a ++ c ∷ b) ≡ some (a, b)
unfolding cut_last occurs
cut_last-append c [] b h = ground (arith, cut_last-none c b h)
cut_last-append c (d ∷ a) b h = ground (arith, cut_last-append c a b h)

-- no colon and no bracket
pub record IsPlain (s : GoString) : Type 0 where
  pub colon : occurs b':' s ≡ false
  pub open_bracket : occurs b'[' s ≡ false
  pub close_bracket : occurs b']' s ≡ false

-- a host in brackets may have colons
pub record IsBracketed (host : GoString) : Type 0 where
  pub open_bracket : occurs b'[' host ≡ false
  pub close_bracket : occurs b']' host ≡ false

-- the text that stands for a host and a port
pub data IsAddress (s host port : GoString) : Type 0 where
  plain : s ≡ host ++ b':' ∷ port → IsPlain host → IsPlain port → IsAddress s host port
  in_brackets :
      s ≡ b'[' ∷ (host ++ b']' ∷ b':' ∷ port)
      → IsBracketed host
      → IsPlain port
      → IsAddress s host port

unbracketed-IsAddress :
    (s a b host port : GoString)
    → s ≡ a ++ b':' ∷ b
    → occurs b':' b ≡ false
    → unbracketed s a b ≡ host_port host port
    → IsAddress s host port
unfolding occurs
unbracketed-IsAddress s a b host port e last h =
    let o = ap (occurs b'[') e ∙ occurs-append b'[' a (b':' ∷ b) in
    let c = ap (occurs b']') e ∙ occurs-append b']' a (b':' ∷ b) in
    plain (ground (arith, e, h))
      (record {
        colon = ground (arith, h);
        open_bracket = ground (arith, h, o);
        close_bracket = ground (arith, h, c);
      })
      (record {
        colon = ground (arith, h, last);
        open_bracket = ground (arith, h, o);
        close_bracket = ground (arith, h, c);
      })

bracketed-IsAddress :
    (rest host port : GoString)
    → bracketed rest (cut_first b']' rest) ≡ host_port host port
    → IsAddress (b'[' ∷ rest) host port
unfolding occurs
bracketed-IsAddress rest host port h = elim (Option-cases (cut_first b']' rest)) [
  | inl n ↦ ground (arith, h, n)
  | inr ((a, []), n) ↦ ground (arith, h, n)
  | inr ((a, c ∷ b), n) ↦
      let (e, free) = cut_first-some b']' rest a (c ∷ b) n in
      let o = ap (occurs b'[') e ∙ occurs-append b'[' a (b']' ∷ c ∷ b) in
      in_brackets (ground (arith, e, h, n))
        (record {
          open_bracket = ground (arith, h, n, o);
          close_bracket = ground (arith, h, n, free);
        })
        (record {
          colon = ground (arith, h, n);
          open_bracket = ground (arith, h, n, o);
          close_bracket = ground (arith, h, n);
        })
]

split_at-IsAddress :
    (s a b host port : GoString)
    → s ≡ a ++ b':' ∷ b
    → occurs b':' b ≡ false
    → split_at s a b ≡ host_port host port
    → IsAddress s host port
split_at-IsAddress [] a b host port e last h = unbracketed-IsAddress [] a b host port e last h
split_at-IsAddress (c ∷ s) a b host port e last h = elim (Bool-cases (c == b'[')) [
  | inl q ↦
      subst (λ d. IsAddress (d ∷ s) host port) (ground (arith, q))
        (bracketed-IsAddress s host port (ground (arith, h, q)))
  | inr q ↦ unbracketed-IsAddress (c ∷ s) a b host port e last (ground (arith, h, q))
]

split_host_port-plain :
    (host port : GoString)
    → IsPlain host
    → IsPlain port
    → split_at (host ++ b':' ∷ port) host port ≡ host_port host port
unfolding occurs
split_host_port-plain [] port h p = ground (arith, p.open_bracket, p.close_bracket, p.colon)
split_host_port-plain (c ∷ host) port h p = ground (
  arith,
  h.open_bracket,
  h.close_bracket,
  h.colon,
  p.open_bracket,
  p.close_bracket,
  occurs-append b'[' host (b':' ∷ port),
  occurs-append b']' host (b':' ∷ port),
)

split_host_port-in_brackets :
    (host port : GoString)
    → IsBracketed host
    → IsPlain port
    → (bracketed (host ++ b']' ∷ b':' ∷ port) (cut_first b']' (host ++ b']' ∷ b':' ∷ port)))
      ≡ host_port host port
unfolding occurs
split_host_port-in_brackets host port h p = ground (
  arith,
  cut_first-append b']' host (b':' ∷ port) h.close_bracket,
  h.open_bracket,
  p.colon,
  p.open_bracket,
  p.close_bracket,
  occurs-append b'[' host (b']' ∷ b':' ∷ port),
)

split_host_port-at :
    (s a b : GoString) (r : Split)
    → cut_last b':' s ≡ some (a, b)
    → split_at s a b ≡ r
    → split_host_port s ≡ r
unfolding split_host_port
split_host_port-at s a b r n h = ground (arith, n, h)

-- the last colon of a bracketed text is that before the port
cut_last-in_brackets :
    (host port : GoString)
    → IsPlain port
    → cut_last b':' (b'[' ∷ (host ++ b']' ∷ b':' ∷ port)) ≡ some (b'[' ∷ (host ++ b']' ∷ []), port)
cut_last-in_brackets host port p =
    ap (λ t. cut_last b':' (b'[' ∷ t)) (sym (append_assoc host (b']' ∷ []) (b':' ∷ port)))
    ∙ cut_last-append b':' (b'[' ∷ (host ++ b']' ∷ [])) port p.colon

-- `net.SplitHostPort` answers a host and a port exactly for the texts `host:port`, with no further
-- colon and no bracket, and `[host]:port`, where the host has no bracket and the port neither a
-- colon nor a bracket.
pub split_host_port_iff :
    (s host port : GoString) → (split_host_port s ≡ host_port host port) ↔ IsAddress s host port
unfolding split_host_port
split_host_port_iff s host port = (to, from)
  where
    to : split_host_port s ≡ host_port host port → IsAddress s host port
    to h = elim (Option-cases (cut_last b':' s)) [
      | inl n ↦ ground (arith, h, n)
      | inr ((a, b), n) ↦
          let (e, last) = cut_last-some b':' s a b n in
          split_at-IsAddress s a b host port e last (ground (arith, h, n))
    ]

    from : IsAddress s host port → split_host_port s ≡ host_port host port
    from (plain e h p) =
        subst (λ t. split_host_port t ≡ host_port host port) (sym e)
          (split_host_port-at (host ++ b':' ∷ port) host port (host_port host port)
            (cut_last-append b':' host port p.colon) (split_host_port-plain host port h p))
    from (in_brackets e h p) =
        let text = b'[' ∷ (host ++ b']' ∷ b':' ∷ port) in
        subst (λ t. split_host_port t ≡ host_port host port) (sym e)
          (split_host_port-at text (b'[' ∷ (host ++ b']' ∷ [])) port (host_port host port)
            (cut_last-in_brackets host port p) (split_host_port-in_brackets host port h p))
