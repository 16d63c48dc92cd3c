-- ===== src/Ebpf/Attachment/Teardown.antt =====
-- `DetachAll` leaves nothing attached.
use mathlib.Core.List.{Permᴰ}
use mathlib.Core.List.Permᴰ
use wlt_traffic.Base.{
  suc, ◌≡◌, ◌≢◌, ◌⊎◌, inl, inr, refl, subst, true, Option, none, some, List, [], ◌∷◌, All, map,
  arith, if◌then◌else◌, Option-cases,
}
use wlt_traffic.Base.Sort.{All-perm}
use wlt_traffic.Error.{Error}
use wlt_traffic.Storage.Types.{GoString, GoString-discrete}
use wlt_traffic.Storage.Table.{Table, find}
use wlt_traffic.Ebpf.Link.{Direction, direction_ingress, direction_egress, Link, Kernel, Net}
use wlt_traffic.Ebpf.Iface.{detached, failed, DirectionState, IfaceState}
use wlt_traffic.Ebpf.Attachment.{AttachmentManager, get_direction_state, iface_names, called}
use wlt_traffic.Ebpf.Attachment.Detach.{
  detach_direction, detach_iface, detach_each, detach_all, close_answer, open_link, without,
}
use wlt_traffic.Ebpf.Attachment.Slots.{
  Slot, same_slot, view, open_at, view-set_direction_state, open_link-view, view-net, same_slot_eq,
  same_slot_refl,
}
use wlt_traffic.Ebpf.Attachment.Moves.{has, IsHeld, Moves-IsHeld, CloseFault}
use wlt_traffic.Ebpf.Attachment.Steps.{detach_each-Moves}

close_answer-open :
    (name : GoString) (d : Direction) (l : Link) (answer : Option Error) (m : AttachmentManager)
    (s : Slot)
    → open_at (close_answer name d l answer m).1 s
      ≡ (if same_slot (name, d) s then none else open_at m s)
close_answer-open name d l (some x) m s =
    let state : DirectionState = record { state = failed; link = none; error_msg = some x } in
    ground (arith, view-set_direction_state name d state (called m) s, view-net m (called m).net s)
close_answer-open name d l none m s =
    let state : DirectionState = record { state = detached; link = none; error_msg = none } in
    let net : Net = record { calls = suc m.net.calls; links = without l m.net.links } in
    ground
      (arith, view-set_direction_state name d state (record m { net = net }) s, view-net m net s)

pub Direction-cases : (d : Direction) → (d ≡ direction_ingress) ⊎ (d ≡ direction_egress)
Direction-cases direction_ingress = inl refl
Direction-cases direction_egress = inr refl

-- a predicate of every key is one of a key that is found
All-names :
    (P : GoString → Type 0) (name : GoString) (t : Table GoString IfaceState)
    → All P (map (λ (entry : GoString × IfaceState). entry.0) t)
    → find GoString-discrete name t ≢ none
    → P name
unfolding find
All-names P name [] h n = absurd (n refl)
All-names P name ((j, i) ∷ t) h n = elim (GoString-discrete j name) [
  | yes p ↦ subst P p h.0
  | no p ↦ All-names P name t h.1 (λ e. n (ground arith))
]

-- a slot of an interface that has no entry
no_entry :
    (m : AttachmentManager) (s : Slot)
    → find GoString-discrete s.0 m.iface_states ≡ none
    → open_at m s ≡ none
unfolding view
no_entry m s h = ground arith

has_head : (l : Link) (links : List Link) → has l (l ∷ links) ≡ true
unfolding has
has_head l links = ground arith

no_links : (m : AttachmentManager) → IsHeld m → ((s : Slot) → open_at m s ≡ none) → m.net.links ≡ []
no_links m held clear = empty m.net.links held
  where
    empty :
        (links : List Link)
        → ((l : Link) → has l links ≡ true → (s : Slot) × (open_at m s ≡ some l))
        → links ≡ []
    empty [] h = refl
    empty (l ∷ links) h = let (s, p) = h l (has_head l links) in ground (arith, p, clear s)

module _ (k : Kernel) where
  detach_direction-open :
      (name : GoString) (d : Direction) (m : AttachmentManager) (s : Slot)
      → open_at (detach_direction k name d m).1 s
        ≡ (if same_slot (name, d) s then none else open_at m s)
  unfolding detach_direction
  detach_direction-open name d m s =
      elim (Option-cases (open_link (get_direction_state m name d))) [
        | inl e ↦
            rw (e, detach_direction)
              (ground (arith, e, open_link-view m name d, same_slot_eq (name, d) s))
        | inr (l, e) ↦
            rw (e, detach_direction) (close_answer-open name d l (k.close_link m.net.calls l) m s)
      ]

  detach_iface-open :
      (name : GoString) (m : AttachmentManager) (d : Direction)
      → open_at (detach_iface k name m).1 (name, d) ≡ none
  unfolding detach_iface
  detach_iface-open name m d =
      let m' = (detach_direction k name direction_ingress m).1 in
      ground (
        arith,
        detach_direction-open name direction_ingress m (name, d),
        detach_direction-open name direction_egress m' (name, d),
        same_slot_refl (name, d),
        Direction-cases d,
      )

  detach_iface-none :
      (name : GoString) (m : AttachmentManager) (s : Slot)
      → open_at m s ≡ none
      → open_at (detach_iface k name m).1 s ≡ none
  unfolding detach_iface
  detach_iface-none name m s h =
      let m' = (detach_direction k name direction_ingress m).1 in
      ground (
        arith,
        detach_direction-open name direction_ingress m s,
        detach_direction-open name direction_egress m' s,
      )

  detach_each-none :
      (names : List GoString) (m : AttachmentManager) (s : Slot)
      → open_at m s ≡ none
      → open_at (detach_each k names m).1 s ≡ none
  unfolding detach_each
  detach_each-none [] m s h = h
  detach_each-none (name ∷ names) m s h =
      detach_each-none names (detach_iface k name m).1 s (detach_iface-none name m s h)

  detach_each-open :
      (names : List GoString) (m : AttachmentManager)
      → All (λ name. (d : Direction) → open_at (detach_each k names m).1 (name, d) ≡ none) names
  unfolding detach_each
  detach_each-open [] m = tt
  detach_each-open (name ∷ names) m =
      let m' = (detach_iface k name m).1 in
      (
        λ d. detach_each-none names m' (name, d) (detach_iface-open name m d),
        detach_each-open names m',
      )

  module _ (order : List GoString → List GoString)
      (perm : (names : List GoString) → Permᴰ (order names) names) (m : AttachmentManager) where
    pub detach_all-open : (s : Slot) → open_at (detach_all k order m).1 s ≡ none
    unfolding detach_all
    detach_all-open (name, d) = elim (Option-cases (find GoString-discrete name m.iface_states)) [
      | inl e ↦ detach_each-none (order (iface_names m)) m (name, d) (no_entry m (name, d) e)
      | inr (i, e) ↦
          let names = iface_names m in
          All-names (λ n. (c : Direction) → open_at (detach_each k (order names) m).1 (n, c) ≡ none)
            name m.iface_states
            (All-perm
              (λ n. (c : Direction) → open_at (detach_each k (order names) m).1 (n, c) ≡ none) names
              (order names) (Permᴰ.symm (perm names)) (detach_each-open (order names) m))
            (λ f. ground (arith, e)) d
    ]

    -- If no link fails to close, and every link of the kernel belongs to an attached slot, then no
    -- link is left after `DetachAll`, in whatever order Go gives the interfaces.
    pub detach_all-links : ¬ CloseFault k → IsHeld m → (detach_all k order m).1.net.links ≡ []
    unfolding detach_all
    detach_all-links closes held =
        no_links (detach_all k order m).1
          (Moves-IsHeld closes
            (detach_each-Moves k (CloseFault k) (λ f. f) (order (iface_names m)) m) held)
          detach_all-open
