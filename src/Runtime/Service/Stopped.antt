-- ===== src/Runtime/Service/Stopped.antt =====
-- The states that `Stop` leaves.
use wlt_traffic.Base.{
  ◌≡◌, ◌∙◌, refl, ap, true, false, List, [], ◌∷◌, All, arith, Option-cases, inl, inr,
}
use wlt_traffic.Storage.Types.{GoString, GoString-discrete}
use wlt_traffic.Storage.Table.{find, find-upsert_self, find-upsert_ne}
use wlt_traffic.Ebpf.Iface.{IfaceState, new_iface_state}
use wlt_traffic.Ebpf.Link.{Kernel}
use wlt_traffic.Ebpf.Attachment.{AttachmentManager, get_iface_state}
use wlt_traffic.Ebpf.Attachment.Detach.{detach_all}
use wlt_traffic.Ebpf.Attachment.Status.{is_iface_attached, either_attached}
use wlt_traffic.Runtime.Service.{Service, stop_service, reset, reset_iface, reset_each}
use wlt_traffic.Runtime.Service.Report.{is_failed}

abbrev both_reset : IfaceState → IfaceState
both_reset s = record s { ingress = reset s.ingress; egress = reset s.egress }

reset_iface-attached :
    (name other : GoString) (m : AttachmentManager)
    → (name ≡ other → is_iface_attached (reset_iface name m) other ≡ false)
      × (is_iface_attached m other ≡ false → is_iface_attached (reset_iface name m) other ≡ false)
unfolding is_iface_attached get_iface_state
reset_iface-attached name other m =
    elim (Option-cases (find GoString-discrete name m.iface_states)) [
      | inl e ↦ rw (e, reset_iface) (λ p. ground (arith, e, p), λ h. h)
      | inr (i, e) ↦
          rw (e, reset_iface)
            (elim (GoString-discrete name other) [
              | yes p ↦
                  let found =
                    find-upsert_self GoString-discrete (λ old _. both_reset old) name
                      (both_reset (new_iface_state name)) m.iface_states in
                  (
                    λ q. rw (← p) (ap either_attached found ∙ rw e refl),
                    λ h. rw (← p) (ap either_attached found ∙ rw e refl),
                  )
              | no p ↦
                  let found =
                    find-upsert_ne GoString-discrete (λ old _. both_reset old) name other
                      (both_reset (new_iface_state name)) m.iface_states p in
                  (λ q. absurd (p q), λ h. ap either_attached found ∙ h)
            ])
    ]

reset_each-detached :
    (names : List GoString) (m : AttachmentManager) (other : GoString)
    → is_iface_attached m other ≡ false
    → is_iface_attached (reset_each names m) other ≡ false
unfolding reset_each
reset_each-detached [] m other h = h
reset_each-detached (name ∷ names) m other h =
    reset_each-detached names (reset_iface name m) other ((reset_iface-attached name other m).1 h)

reset_each-All :
    (names : List GoString) (m : AttachmentManager)
    → All (λ name. is_iface_attached (reset_each names m) name ≡ false) names
unfolding reset_each
reset_each-All [] m = tt
reset_each-All (name ∷ names) m =
    let m' = reset_iface name m in
    (
      reset_each-detached names m' name ((reset_iface-attached name name m).0 refl),
      reset_each-All names m',
    )

-- Whatever state a service is in, after `Stop` it has failed, its status lists no attached
-- interface, and the manager shows no configured interface as attached.
pub stop-status :
    (k : Kernel) (order : List GoString → List GoString) (s : Service)
    → let s' = stop_service k order s in
      (is_failed s' ≡ true)
      × (s'.status.attached_interfaces ≡ [])
      × All (λ name. is_iface_attached s'.manager name ≡ false) s.cfg.interfaces
unfolding stop_service is_failed
stop-status k order s =
    (refl, refl, reset_each-All s.cfg.interfaces (detach_all k order s.manager).1)
