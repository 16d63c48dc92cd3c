-- ===== src/Ebpf/Attachment/History.antt =====
-- The manager in use: any sequence of its operations, on a kernel that may refuse each of its calls.
use mathlib.Core.List.{Permᴰ}
use wlt_traffic.Base.{
  ℕ, ◌≡◌, ◌≢◌, ◌⊎◌, inl, inr, refl, ap, subst, true, false, some, List, [], arith, Option,
}
use wlt_traffic.Error.{Error, wrapped, interface_not_found, err, succeeded}
use wlt_traffic.Storage.Types.{GoString}
use wlt_traffic.Storage.Table.{find}
use wlt_traffic.Ebpf.TrafficMap.{TrafficMap}
use wlt_traffic.Ebpf.Link.{Direction, direction_ingress, direction_egress, Link, Kernel, Net}
use wlt_traffic.Ebpf.Attachment.{
  AttachmentManager, AttachOptions, Collection, new_attachment_manager, attach_iface,
  attach_resolved, iface_names, set_collection, unresolved, set_iface_state, called,
}
use wlt_traffic.Ebpf.Attachment.Detach.{detach_iface, detach_all}
use wlt_traffic.Ebpf.Attachment.Slots.{Slot, view, open_at, view-set_iface_state}
use wlt_traffic.Ebpf.Attachment.Moves.{
  has, Moves, still, IsSound, IsHeld, eq-same_slot, Moves-append, then_move, kept, CloseFault,
  LookupFault, Moves-IsSound, Moves-IsHeld,
}
use wlt_traffic.Ebpf.Attachment.Teardown.{detach_all-links, Direction-cases}
use wlt_traffic.Ebpf.Iface.{failed}
use wlt_traffic.Ebpf.Attachment.Linked.{
  IsLinked, new-IsLinked, attach_iface-IsLinked, detach_iface-IsLinked, detach_each-IsLinked,
}
use wlt_traffic.Ebpf.Attachment.Steps.{attach_iface-Moves, detach_iface-Moves, detach_each-Moves}

abbrev pub Fault : Kernel → Type 0
Fault k = CloseFault k ⊎ LookupFault k

pub data Use (k : Kernel) (m m' : AttachmentManager) : Type 0 where
  collected :
      (c : Option Collection) (t : Option TrafficMap) → set_collection c t m ≡ m' → Use k m m'
  attached :
      (name : GoString) (opts : AttachOptions) → (attach_iface k name opts m).1 ≡ m' → Use k m m'
  detached : (name : GoString) → (detach_iface k name m).1 ≡ m' → Use k m m'
  detached_all :
      (order : List GoString → List GoString) → (detach_all k order m).1 ≡ m' → Use k m m'

pub data Uses (k : Kernel) (m : AttachmentManager) : AttachmentManager → Type 0 where
  unused : Uses k m m
  used : {u v : AttachmentManager} → Uses k m u → Use k u v → Uses k m v

Use-Moves : {k : Kernel} {m m' : AttachmentManager} → Use k m m' → Moves (Fault k) m m'
unfolding set_collection view detach_all
Use-Moves {k} {m} (collected c t e) =
    subst (Moves (Fault k) m) e (then_move still (kept (λ s. refl) refl (omega arith)))
Use-Moves {k} {m} (attached name opts e) = subst (Moves (Fault k) m) e (
    attach_iface-Moves k (Fault k) name opts m
      (λ x p. (inr (inr (m.net.calls, name, x, p)), inr (inr (m.net.calls, name, x, p)))))
Use-Moves {k} {m} (detached name e) =
    subst (Moves (Fault k) m) e (detach_iface-Moves k (Fault k) inl name m)
Use-Moves {k} {m} (detached_all order e) =
    subst (Moves (Fault k) m) e (detach_each-Moves k (Fault k) inl (order (iface_names m)) m)

Uses-Moves : {k : Kernel} {m m' : AttachmentManager} → Uses k m m' → Moves (Fault k) m m'
Uses-Moves unused = still
Uses-Moves (used us u) = Moves-append (Uses-Moves us) (Use-Moves u)

Use-IsLinked : {k : Kernel} {m m' : AttachmentManager} → Use k m m' → IsLinked m → IsLinked m'
unfolding set_collection view detach_all
Use-IsLinked (collected c t e) linked = subst IsLinked e linked
Use-IsLinked {k} {m} (attached name opts e) linked =
    subst IsLinked e (attach_iface-IsLinked k name opts m linked)
Use-IsLinked {k} {m} (detached name e) linked =
    subst IsLinked e (detach_iface-IsLinked k name m linked)
Use-IsLinked {k} {m} (detached_all order e) linked =
    subst IsLinked e (detach_each-IsLinked k (order (iface_names m)) m linked)

Uses-IsLinked : {k : Kernel} {m m' : AttachmentManager} → Uses k m m' → IsLinked m → IsLinked m'
Uses-IsLinked unused linked = linked
Uses-IsLinked (used us u) linked = Use-IsLinked u (Uses-IsLinked us linked)

abbrev pub idle : ℕ → Net
idle calls = record { calls = calls; links = [] }

pub new-IsSound : (net : Net) → IsSound (new_attachment_manager net)
unfolding new_attachment_manager view find
new-IsSound net = record { live = λ s l p. cc; unique = λ s t l p q. cc; below = λ s l p. cc }

pub new-IsHeld : (calls : ℕ) → IsHeld (new_attachment_manager (idle calls))
unfolding new_attachment_manager has
new-IsHeld calls l p = ground (arith, p)

module _ {k : Kernel} (calls : ℕ) {m : AttachmentManager}
    (us : Uses k (new_attachment_manager (idle calls)) m) where
  -- However a new manager is used, on a kernel that holds no link at first, and whichever calls the
  -- kernel refuses: every attached direction of an interface has a link, which the kernel holds and
  -- which no other attached direction has.
  pub Uses-IsSound : IsSound m × IsLinked m
  Uses-IsSound = (
    Moves-IsSound (Uses-Moves us) (new-IsSound (idle calls)),
    Uses-IsLinked us (new-IsLinked (idle calls)),
  )

  -- If the kernel holds no link at first, finds every interface and closes every link, then however
  -- a new manager was used, the kernel holds no link after `DetachAll`, in whatever order Go gives
  -- it the interfaces.
  pub Uses-detach_all :
      (order : List GoString → List GoString)
      → ((names : List GoString) → Permᴰ (order names) names)
      → ¬ Fault k
      → (detach_all k order m).1.net.links ≡ []
  Uses-detach_all order perm fine =
      detach_all-links k order perm m (λ f. fine (inl f))
        (Moves-IsHeld fine (Uses-Moves us) (new-IsHeld calls))

-- an interface that is not found has no link in the manager
unresolved-open :
    (k : Kernel) (name : GoString) (y : Error) (m : AttachmentManager) (s : Slot) (l : Link)
    → open_at (unresolved k name y m) s ≡ some l
    → (open_at m s ≡ some l) × (s.0 ≢ name)
unresolved-open k name y m (n, c) l p =
    let u = set_iface_state name direction_ingress failed (some y) m in
    let e = view-set_iface_state name direction_egress failed (some y) u (n, c) in
    let i = view-set_iface_state name direction_ingress failed (some y) m (n, c) in
    (
      ground (arith, e, i, p),
      λ q. ground (arith, e, i, p, q, Direction-cases c, eq-same_slot (name, c) (n, c)),
    )

-- If the kernel holds the links of the attached directions and no two of these have the same link,
-- and an interface with an attached link is not found when it is attached again, then `AttachIface`
-- fails, the kernel still holds the link, and it is the link of no attached direction any more.
pub attach_iface_leaks :
    (k : Kernel) (m : AttachmentManager) (name : GoString) (d : Direction) (l : Link)
    (opts : AttachOptions) (x : Error)
    → IsSound m
    → open_at m (name, d) ≡ some l
    → k.interface_by_name m.net.calls name ≡ err x
    → let (r, m') = attach_iface k name opts m in
      (succeeded r ≡ false) × (has l m'.net.links ≡ true) × ((s : Slot) → open_at m' s ≢ some l)
unfolding attach_iface attach_resolved view
attach_iface_leaks k m name d l opts x sound held missing =
    rw (missing, attach_iface)
      (
        refl,
        ground (arith, sound.live (name, d) l held),
        λ s p.
            let (q, other) =
              unresolved-open k name (wrapped interface_not_found x) (called m) s l p in
            other (ap (λ (t : Slot). t.0) (sound.unique s (name, d) l q held)),
      )
