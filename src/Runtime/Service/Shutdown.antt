-- ===== src/Runtime/Service/Shutdown.antt =====
-- `Stop` after `Start`.
use mathlib.Core.List.{Permᴰ}
use wlt_traffic.Base.{
  ℕ, ◌≡◌, ◌≢◌, ◌∙◌, inl, inr, refl, sym, ap, subst, List, [], ◌∷◌, All, All-zip, AreDistinct, arith,
  Bool-cases,
}
use wlt_traffic.Config.{Config}
use wlt_traffic.Error.{Result}
use wlt_traffic.Storage.Types.{GoString}
use wlt_traffic.Ebpf.Link.{Kernel, Net}
use wlt_traffic.Ebpf.TrafficMap.{TrafficMap}
use wlt_traffic.Ebpf.Attachment.{
  AttachmentManager, Collection, attach_iface, new_attachment_manager, set_collection,
}
use wlt_traffic.Ebpf.Attachment.Detach.{detach_all}
use wlt_traffic.Ebpf.Attachment.Slots.{view}
use wlt_traffic.Ebpf.Attachment.Moves.{
  Moves, still, then_move, kept, Moves-append, Moves-IsHeld, CloseFault, IsHeld,
}
use wlt_traffic.Ebpf.Attachment.Steps.{attach_iface-Moves}
use wlt_traffic.Ebpf.Attachment.Teardown.{detach_all-links}
use wlt_traffic.Ebpf.Attachment.History.{idle, new-IsHeld}
use wlt_traffic.Ebpf.Loader.{Objects}
use wlt_traffic.Runtime.Service.{
  Service, Attaching, new_service, attach_one, attach_each, start_service, stop_service,
  with_attached, settle, options, no_options, reset_iface, reset_each,
}
use wlt_traffic.Runtime.Service.Lists.{Ready, after_attach-manager, attach_one-Ready}
use wlt_traffic.Runtime.Service.Start.{Loads, begun, begun-Ready, start-settle}

settle-manager : (s : Service) → (settle s).1.manager ≡ s.manager
unfolding settle
settle-manager s = ground arith

module _ (k : Kernel) (F : Type 0) where
  attach_one-Moves :
      (name : GoString) (st : Attaching)
      → Ready k st name
      → Moves F st.manager (attach_one k name st).manager
  unfolding attach_one
  attach_one-Moves name st (fresh, p, q) = elim (Bool-cases (no_options st.manager)) [
    | inl e ↦ rw e (subst (Moves F st.manager) (ground arith) still)
    | inr e ↦ rw e (
        let opts = options st.manager in
        let (r, m) = attach_iface k name opts st.manager in
        subst (Moves F st.manager) (sym (after_attach-manager k name st r m)) (
          attach_iface-Moves k F name opts st.manager
            (λ x z. (inl (ground (arith, p)), inl (ground (arith, q))))))
  ]

  attach_each-Moves :
      (names : List GoString) (st : Attaching)
      → AreDistinct names
      → All (Ready k st) names
      → Moves F st.manager (attach_each k names st).manager
  unfolding attach_each
  attach_each-Moves [] st distinct ready = still
  attach_each-Moves (name ∷ names) st (apart, distinct) (r, ready) =
      let st' = attach_one k name st in
      Moves-append (attach_one-Moves name st r) (
        attach_each-Moves names st' distinct (
          All-zip (λ other. name ≢ other) (Ready k st) (Ready k st')
            (λ other n z. attach_one-Ready k name st other r n z) names apart ready))

-- `Stop` resets states, and makes no further call
reset_each-net : (names : List GoString) (m : AttachmentManager) → (reset_each names m).net ≡ m.net
unfolding reset_each
reset_each-net [] m = refl
reset_each-net (name ∷ names) m = reset_each-net names (reset_iface name m) ∙ ground arith

module _ (k : Kernel) (o : Objects) (cfg : Config) (path : GoString) (calls : ℕ)
    (objects : Collection × TrafficMap) (loads : Loads o path objects) where
  start-IsHeld :
      AreDistinct cfg.interfaces
      → ¬ CloseFault k
      → IsHeld (start_service k o (new_service cfg path (idle calls))).1.manager
  unfolding set_collection view
  start-IsHeld distinct closes =
      let new = new_attachment_manager (idle calls) in
      let st = begun (idle calls) objects in
      let ms : Moves (CloseFault k) new (attach_each k cfg.interfaces st).manager =
        Moves-append (then_move still (kept (λ s. refl) refl (omega arith))) (
          attach_each-Moves k (CloseFault k) cfg.interfaces st distinct
            (begun-Ready k (idle calls) objects cfg.interfaces)) in
      let s = new_service cfg path (idle calls) in
      let same =
        ap (λ (t : Result (Unit {0}) × Service). t.1.manager)
          (start-settle k o cfg path (idle calls) objects loads)
        ∙ settle-manager (with_attached (attach_each k cfg.interfaces st) s) in
      subst IsHeld (sym same) (Moves-IsHeld closes ms (new-IsHeld calls))

  -- If the programs and the map are loaded, no interface is configured twice and every link
  -- closes, then after `Start` of a new service, on a kernel that holds no link, and `Stop` the
  -- kernel holds no link, whichever interfaces are not found or not attached and in whatever order
  -- Go gives them to `DetachAll`.
  pub start-stop :
      (order : List GoString → List GoString)
      → ((names : List GoString) → Permᴰ (order names) names)
      → AreDistinct cfg.interfaces
      → ¬ CloseFault k
      → let s = (start_service k o (new_service cfg path (idle calls))).1 in
        (stop_service k order s).manager.net.links ≡ []
  unfolding stop_service
  start-stop order perm distinct closes =
      let s = (start_service k o (new_service cfg path (idle calls))).1 in
      ap (λ (net : Net). net.links)
        (reset_each-net s.cfg.interfaces (detach_all k order s.manager).1)
      ∙ detach_all-links k order perm s.manager closes (start-IsHeld distinct closes)
