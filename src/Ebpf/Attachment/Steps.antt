-- ===== src/Ebpf/Attachment/Steps.antt =====
-- Every operation of the manager is a sequence of moves.
use wlt_traffic.Base.{
  ℕ, suc, ◌≡◌, ◌∙◌, ◌⊎◌, inl, inr, refl, sym, Option, none, some, List, [], ◌∷◌, arith,
  Option-cases, Bool-cases,
}
use wlt_traffic.Error.{Error, Result, ok, err, wrapped, interface_not_found}
use wlt_traffic.Storage.Types.{GoString}
use wlt_traffic.Ebpf.Link.{
  Direction, direction_ingress, direction_egress, Program, Link, Kernel, Net,
}
use wlt_traffic.Ebpf.Iface.{detached, attached, failed, DirectionState}
use wlt_traffic.Ebpf.Attachment.{
  AttachmentManager, AttachOptions, AttachResult, attach_direction, attach_option, attach_resolved,
  attach_iface, set_iface_state, set_direction_state, get_direction_state, called, tcx_answer,
  attached_already,
}
use wlt_traffic.Ebpf.Attachment.Detach.{
  detach_direction, detach_iface, detach_each, close_answer, open_link, without,
}
use wlt_traffic.Ebpf.Attachment.Slots.{
  Slot, same_slot_eq, view, open_at, view-set_direction_state, view-set_iface_state,
  attached_already-view, open_link-view, net-set_iface_state, view-net,
}
use wlt_traffic.Ebpf.Attachment.Moves.{
  Move, Moves, kept, opened, closed, lost, still, then_move, Moves-append, CloseFault,
}

module _ (F : Type 0) where
  one_move : {m m' : AttachmentManager} → Move F m m' → Moves F m m'
  one_move move = then_move still move

  called-Move : (m : AttachmentManager) → Move F m (called m)
  unfolding view
  called-Move m = kept (λ s. refl) refl (omega arith)

  -- a slot that has no link fails
  failed-Move :
      (name : GoString) (d : Direction) (x : Error) (m : AttachmentManager)
      → (open_at m (name, d) ≡ none) ⊎ F
      → Move F m (set_iface_state name d failed (some x) m)
  failed-Move name d x m (inl free) =
      kept
        (λ s.
          ground (
            arith,
            view-set_iface_state name d failed (some x) m s,
            same_slot_eq (name, d) s,
            free,
          ))
        (ground (arith, net-set_iface_state name d failed (some x) m))
        (ground (arith, net-set_iface_state name d failed (some x) m))
  failed-Move name d x m (inr f) =
      lost f (name, d) (λ s. ground (arith, view-set_iface_state name d failed (some x) m s))
        (ground (arith, net-set_iface_state name d failed (some x) m))
        (ground (arith, net-set_iface_state name d failed (some x) m))

  module _ (name : GoString) (d : Direction) (m : AttachmentManager) where
    tcx_answer-Move :
        (ifindex : ℕ) (answer : Option Error)
        → open_at m (name, d) ≡ none
        → Move F m (tcx_answer name ifindex d answer m).1
    unfolding set_direction_state
    tcx_answer-Move ifindex (some x) free =
        let state : DirectionState = record { state = failed; link = none; error_msg = some x } in
        kept
          (λ s. ground (
            arith,
            view-set_direction_state name d state (called m) s,
            view-net m (called m).net s,
            same_slot_eq (name, d) s,
            free,
          ))
          refl (omega arith)
    tcx_answer-Move ifindex none free =
        let n = m.net.calls in
        let state : DirectionState = record { state = attached; link = some n; error_msg = none } in
        let net : Net = record { calls = suc n; links = n ∷ m.net.links } in
        opened (name, d) free
          (λ s. ground (
            arith,
            view-set_direction_state name d state (record m { net = net }) s,
            view-net m net s,
          ))
          refl refl

    close_answer-Move :
        (l : Link) (answer : Option Error)
        → open_at m (name, d) ≡ some l
        → ((x : Error) → answer ≡ some x → F)
        → Move F m (close_answer name d l answer m).1
    unfolding set_direction_state
    close_answer-Move l (some x) held f =
        let state : DirectionState = record { state = failed; link = none; error_msg = some x } in
        lost (f x refl) (name, d)
          (λ s. ground (
            arith,
            view-set_direction_state name d state (called m) s,
            view-net m (called m).net s,
          ))
          refl (omega arith)
    close_answer-Move l none held f =
        let state : DirectionState = record { state = detached; link = none; error_msg = none } in
        let net : Net = record { calls = suc m.net.calls; links = without l m.net.links } in
        closed (name, d) l held
          (λ s. ground (
            arith,
            view-set_direction_state name d state (record m { net = net }) s,
            view-net m net s,
          ))
          refl (omega arith)

module _ (k : Kernel) (F : Type 0) where
  attach_direction-Move :
      (name : GoString) (ifindex : ℕ) (d : Direction) (prog : Program) (m : AttachmentManager)
      → Move F m (attach_direction k name ifindex d prog m).1
  unfolding attach_direction
  attach_direction-Move name ifindex d prog m =
      elim (Bool-cases (attached_already (get_direction_state m name d))) [
        | inl e ↦ rw (e, attach_direction) (kept (λ s. refl) refl (omega arith))
        | inr e ↦
            rw (e, attach_direction)
              (tcx_answer-Move F name d m ifindex (k.attach_tcx m.net.calls ifindex d prog)
                (ground (arith, e, attached_already-view m name d)))
      ]

  attach_option-Moves :
      (name : GoString) (ifindex : ℕ) (d : Direction) (prog : Option Program)
      (results : List AttachResult) (m u : AttachmentManager)
      → Moves F u m
      → Moves F u (attach_option k name ifindex d prog (results, m)).1
  unfolding attach_option
  attach_option-Moves name ifindex d none results m u ms = ms
  attach_option-Moves name ifindex d (some prog) results m u ms =
      then_move ms (attach_direction-Move name ifindex d prog m)

  -- a slot has no link, or may give it up
  abbrev pub Excused : AttachmentManager → Slot → Type 0
  Excused m slot = (open_at m slot ≡ none) ⊎ F

  Excused-set_iface_state :
      (name : GoString) (x : Error) (m : AttachmentManager)
      → Excused m (name, direction_egress)
      → Excused (set_iface_state name direction_ingress failed (some x) m) (name, direction_egress)
  Excused-set_iface_state name x m (inr f) = inr f
  Excused-set_iface_state name x m (inl free) = inl (
      ground (
        arith,
        view-set_iface_state name direction_ingress failed (some x) m (name, direction_egress),
        free,
      ))

  attach_resolved-Moves :
      (name : GoString) (opts : AttachOptions) (r : Result ℕ) (m : AttachmentManager)
      → ((x : Error)
          → r ≡ err x
          → Excused m (name, direction_ingress) × Excused m (name, direction_egress))
      → Moves F m (attach_resolved k name opts r m).1
  unfolding attach_resolved
  attach_resolved-Moves name opts (err x) m excused =
      let (p, q) = excused x refl in
      let y = wrapped interface_not_found x in
      then_move (then_move still (failed-Move F name direction_ingress y m p)) (
        failed-Move F name direction_egress y
          (set_iface_state name direction_ingress failed (some y) m)
          (Excused-set_iface_state name y m q))
  attach_resolved-Moves name opts (ok ifindex) m excused =
      let (results, m') = attach_option k name ifindex direction_ingress opts.ingress ([], m) in
      attach_option-Moves name ifindex direction_egress opts.egress results m' m
        (attach_option-Moves name ifindex direction_ingress opts.ingress [] m m still)

  pub attach_iface-Moves :
      (name : GoString) (opts : AttachOptions) (m : AttachmentManager)
      → ((x : Error)
          → k.interface_by_name m.net.calls name ≡ err x
          → Excused m (name, direction_ingress) × Excused m (name, direction_egress))
      → Moves F m (attach_iface k name opts m).1
  unfolding attach_iface view
  attach_iface-Moves name opts m excused =
      Moves-append (then_move still (called-Move F m))
        (attach_resolved-Moves name opts (k.interface_by_name m.net.calls name) (called m) excused)

  -- an attached link that does not close is given up
  module _ (f : CloseFault k → F) where
    detach_direction-Move :
        (name : GoString) (d : Direction) (m : AttachmentManager)
        → Move F m (detach_direction k name d m).1
    unfolding detach_direction
    detach_direction-Move name d m =
        elim (Option-cases (open_link (get_direction_state m name d))) [
          | inl e ↦ rw (e, detach_direction) (kept (λ s. refl) refl (omega arith))
          | inr (l, e) ↦
              rw (e, detach_direction)
                (close_answer-Move F name d m l (k.close_link m.net.calls l)
                  (sym (open_link-view m name d) ∙ e) (λ x p. f (m.net.calls, l, x, p)))
        ]

    pub detach_iface-Moves :
        (name : GoString) (m : AttachmentManager) → Moves F m (detach_iface k name m).1
    unfolding detach_iface
    detach_iface-Moves name m =
        then_move (then_move still (detach_direction-Move name direction_ingress m)) (
          detach_direction-Move name direction_egress
            (detach_direction k name direction_ingress m).1)

    pub detach_each-Moves :
        (names : List GoString) (m : AttachmentManager) → Moves F m (detach_each k names m).1
    unfolding detach_each
    detach_each-Moves [] m = still
    detach_each-Moves (name ∷ names) m =
        Moves-append (detach_iface-Moves name m) (detach_each-Moves names (detach_iface k name m).1)
