-- ===== src/Ebpf/Attachment/Outcome.antt =====
-- What `AttachIface` says of an interface, and the states that it leaves.
use wlt_traffic.Base.{
  ℕ, suc, ◌≡◌, ◌≢◌, ◌∙◌, inl, inr, refl, sym, ap, Bool, true, false, ◌||◌, Option, none, some, List,
  [], ◌∷◌, ◌++◌, arith, Bool-cases,
}
use wlt_traffic.Error.{Error, Result, ok, err, wrapped, interface_not_found}
use wlt_traffic.Storage.Types.{GoString}
use wlt_traffic.Ebpf.Link.{Direction, direction_ingress, direction_egress, Program, Kernel, Net}
use wlt_traffic.Ebpf.Iface.{attached, failed, DirectionState, is_attached, has_failed}
use wlt_traffic.Ebpf.Attachment.{
  AttachmentManager, AttachOptions, AttachResult, result_failed, attach_direction, attach_option,
  attach_resolved, attach_iface, get_direction_state, called, tcx_answer, attached_already,
  set_iface_state,
}
use wlt_traffic.Ebpf.Attachment.Slots.{
  Slot, same_slot_eq, same_slot_refl, view, view-set_direction_state, view-set_iface_state,
  attached_already-view, view-net,
}

abbrev pub any_failed : List AttachResult → Bool
any_failed [] = false
any_failed (r ∷ results) = result_failed r || any_failed results

-- the answer of the kernel for a slot, and its state after it
abbrev Answered : AttachResult → DirectionState → Type 0
Answered r d = (has_failed d ≡ result_failed r) × (is_attached d || has_failed d ≡ true)

module _ (name : GoString) (d : Direction) (m : AttachmentManager) where
  tcx_answer-view :
      (ifindex : ℕ) (answer : Option Error) (s : Slot)
      → s ≢ (name, d)
      → view (tcx_answer name ifindex d answer m).1 s ≡ view m s
  tcx_answer-view ifindex (some x) s other =
      let state : DirectionState = record { state = failed; link = none; error_msg = some x } in
      ground (
        arith,
        view-set_direction_state name d state (called m) s,
        view-net m (called m).net s,
        same_slot_eq (name, d) s,
        other,
      )
  tcx_answer-view ifindex none s other =
      let n = m.net.calls in
      let state : DirectionState = record { state = attached; link = some n; error_msg = none } in
      let net : Net = record { calls = suc n; links = n ∷ m.net.links } in
      ground (
        arith,
        view-set_direction_state name d state (record m { net = net }) s,
        view-net m net s,
        same_slot_eq (name, d) s,
        other,
      )

  tcx_answer-Answered :
      (ifindex : ℕ) (answer : Option Error)
      → let (r, m') = tcx_answer name ifindex d answer m in Answered r (view m' (name, d))
  tcx_answer-Answered ifindex (some x) =
      let state : DirectionState = record { state = failed; link = none; error_msg = some x } in
      rw (view-set_direction_state name d state (called m) (name, d), same_slot_refl (name, d))
        (refl, refl)
  tcx_answer-Answered ifindex none =
      let n = m.net.calls in
      let state : DirectionState = record { state = attached; link = some n; error_msg = none } in
      let net : Net = record { calls = suc n; links = n ∷ m.net.links } in
      rw
        (
          view-set_direction_state name d state (record m { net = net }) (name, d),
          same_slot_refl (name, d),
        )
        (refl, refl)

attached-not_failed : (d : DirectionState) → is_attached d ≡ true → has_failed d ≡ false
attached-not_failed d h = ground (arith, h)

module _ (k : Kernel) (name : GoString) where
  module _ (ifindex : ℕ) (d : Direction) (prog : Program) (m : AttachmentManager) where
    attach_direction-view :
        (s : Slot) → s ≢ (name, d) → view (attach_direction k name ifindex d prog m).1 s ≡ view m s
    unfolding attach_direction
    attach_direction-view s other =
        elim (Bool-cases (attached_already (get_direction_state m name d))) [
          | inl e ↦ rw (e, attach_direction) refl
          | inr e ↦
              rw (e, attach_direction)
                (tcx_answer-view name d m ifindex (k.attach_tcx m.net.calls ifindex d prog) s other)
        ]

    attach_direction-Answered :
        let (r, m') = attach_direction k name ifindex d prog m in Answered r (view m' (name, d))
    unfolding attach_direction
    attach_direction-Answered =
        elim (Bool-cases (attached_already (get_direction_state m name d))) [
          | inl e ↦
              rw (e, attach_direction)
                (let there = sym (attached_already-view m name d) ∙ e in
                  (attached-not_failed (view m (name, d)) there, ground (arith, there)))
          | inr e ↦
              rw (e, attach_direction)
                (tcx_answer-Answered name d m ifindex (k.attach_tcx m.net.calls ifindex d prog))
        ]

  any_failed-append :
      (results : List AttachResult) (r : AttachResult)
      → any_failed (results ++ (r ∷ [])) ≡ (any_failed results || result_failed r)
  any_failed-append [] r = ground arith
  any_failed-append (x ∷ results) r = ground (arith, any_failed-append results r)

  attach_option-view :
      (ifindex : ℕ) (d : Direction) (prog : Option Program) (results : List AttachResult)
      (m : AttachmentManager) (s : Slot)
      → s ≢ (name, d)
      → view (attach_option k name ifindex d prog (results, m)).1 s ≡ view m s
  unfolding attach_option
  attach_option-view ifindex d none results m s other = refl
  attach_option-view ifindex d (some prog) results m s other =
      attach_direction-view ifindex d prog m s other

  -- no attempt was made
  abbrev pub Untried : AttachmentManager → Direction → Type 0
  Untried m d = (is_attached (view m (name, d)) ≡ false) × (has_failed (view m (name, d)) ≡ false)

  attach_option-failed :
      (ifindex : ℕ) (d : Direction) (prog : Option Program) (results : List AttachResult)
      (m : AttachmentManager)
      → Untried m d
      → let (results', m') = attach_option k name ifindex d prog (results, m) in
        any_failed results' ≡ (any_failed results || has_failed (view m' (name, d)))
  unfolding attach_option
  attach_option-failed ifindex d none results m h = ground (arith, h.1)
  attach_option-failed ifindex d (some prog) results m h = ground (
    arith,
    any_failed-append results (attach_direction k name ifindex d prog m).0,
    (attach_direction-Answered ifindex d prog m).0,
  )

  abbrev pub either_at : (DirectionState → Bool) → AttachmentManager → Bool
  either_at test m =
      test (view m (name, direction_ingress)) || test (view m (name, direction_egress))

  abbrev pub noted : Result (List AttachResult) → Bool
  noted (err x) = true
  noted (ok results) = any_failed results

  -- what the caller of `AttachIface` is told of failures is what the manager shows
  attach_resolved-failed :
      (opts : AttachOptions) (r : Result ℕ) (m : AttachmentManager)
      → Untried m direction_ingress
      → Untried m direction_egress
      → let (results, m') = attach_resolved k name opts r m in
        noted results ≡ either_at has_failed m'
  unfolding attach_resolved
  attach_resolved-failed opts (err x) m p q =
      let y = wrapped interface_not_found x in
      let m' = set_iface_state name direction_ingress failed (some y) m in
      let e =
        view-set_iface_state name direction_egress failed (some y) m' (name, direction_egress) in
      ground (arith, e, same_slot_refl (name, direction_egress))
  attach_resolved-failed opts (ok ifindex) m p q =
      let st = attach_option k name ifindex direction_ingress opts.ingress ([], m) in
      let other =
        attach_option-view ifindex direction_egress opts.egress st.0 st.1 (name, direction_ingress)
          (λ e. ground (arith, e)) in
      let same =
        attach_option-view ifindex direction_ingress opts.ingress [] m (name, direction_egress)
          (λ e. ground (arith, e)) in
      ground (
        arith,
        other,
        attach_option-failed ifindex direction_ingress opts.ingress [] m p,
        attach_option-failed ifindex direction_egress opts.egress st.0 st.1
            (ground (arith, same, q)),
      )

  attach_resolved-view :
      (opts : AttachOptions) (r : Result ℕ) (m : AttachmentManager) (s : Slot)
      → s.0 ≢ name
      → view (attach_resolved k name opts r m).1 s ≡ view m s
  unfolding attach_resolved
  attach_resolved-view opts (err x) m s other =
      let y = wrapped interface_not_found x in
      let m' = set_iface_state name direction_ingress failed (some y) m in
      ground (
        arith,
        view-set_iface_state name direction_egress failed (some y) m' s,
        view-set_iface_state name direction_ingress failed (some y) m s,
        same_slot_eq (name, direction_egress) s,
        same_slot_eq (name, direction_ingress) s,
        other,
      )
  attach_resolved-view opts (ok ifindex) m s other =
      let st = attach_option k name ifindex direction_ingress opts.ingress ([], m) in
      attach_option-view ifindex direction_egress opts.egress st.0 st.1 s
        (λ e. other (ap (λ (t : Slot). t.0) e))
      ∙ attach_option-view ifindex direction_ingress opts.ingress [] m s
          (λ e. other (ap (λ (t : Slot). t.0) e))

  -- an interface that is not found is not attached
  attach_resolved-missing :
      (opts : AttachOptions) (r : Result ℕ) (m : AttachmentManager) (x : Error)
      → (attach_resolved k name opts r m).0 ≡ err x
      → either_at is_attached (attach_resolved k name opts r m).1 ≡ false
  unfolding attach_resolved
  attach_resolved-missing opts (err x) m z e =
      let y = wrapped interface_not_found x in
      let m' = set_iface_state name direction_ingress failed (some y) m in
      ground (
        arith,
        view-set_iface_state name direction_egress failed (some y) m' (name, direction_egress),
        view-set_iface_state name direction_egress failed (some y) m' (name, direction_ingress),
        view-set_iface_state name direction_ingress failed (some y) m (name, direction_ingress),
        same_slot_refl (name, direction_egress),
        same_slot_refl (name, direction_ingress),
        same_slot_eq (name, direction_egress) (name, direction_ingress),
      )
  attach_resolved-missing opts (ok ifindex) m z e = ground (arith, e)

  module _ (opts : AttachOptions) (m : AttachmentManager) where
    pub attach_iface-view :
        (s : Slot) → s.0 ≢ name → view (attach_iface k name opts m).1 s ≡ view m s
    unfolding attach_iface view
    attach_iface-view s other =
        attach_resolved-view opts (k.interface_by_name m.net.calls name) (called m) s other

    pub attach_iface-failed :
        Untried m direction_ingress
        → Untried m direction_egress
        → noted (attach_iface k name opts m).0 ≡ either_at has_failed (attach_iface k name opts m).1
    unfolding attach_iface view
    attach_iface-failed p q =
        attach_resolved-failed opts (k.interface_by_name m.net.calls name) (called m) p q

    pub attach_iface-missing :
        (x : Error)
        → (attach_iface k name opts m).0 ≡ err x
        → either_at is_attached (attach_iface k name opts m).1 ≡ false
    unfolding attach_iface
    attach_iface-missing x e =
        attach_resolved-missing opts (k.interface_by_name m.net.calls name) (called m) x e
