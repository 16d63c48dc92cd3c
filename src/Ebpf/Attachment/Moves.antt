-- ===== src/Ebpf/Attachment/Moves.antt =====
-- What the manager's operations do to the attached links, as a relation on its states.
use wlt_traffic.Base.{
  ℕ, suc, ◌≤◌, ◌<◌, ◌≡◌, inl, inr, ◌≢◌, sym, subst, ◌∙◌, Bool, true, false, not, ◌&&◌, ◌||◌, Option,
  none, some, List, [], ◌∷◌, arith, ◌==◌, if◌then◌else◌, Bool-cases,
}
use wlt_traffic.Base.Sort.{keep}
use wlt_traffic.Error.{Error, err}
use wlt_traffic.Storage.Types.{GoString}
use wlt_traffic.Ebpf.Link.{Link, Kernel}
use wlt_traffic.Ebpf.Attachment.{AttachmentManager}
use wlt_traffic.Ebpf.Attachment.Detach.{without}
use wlt_traffic.Ebpf.Attachment.Slots.{Slot, same_slot, same_slot_refl, same_slot_eq, open_at}

-- the kernel holds the link
unfoldable pub has : Link → List Link → Bool
has l [] = false
has l (x ∷ xs) = x == l || has l xs

pub has-without :
    (l x : Link) (links : List Link) → has l (without x links) ≡ (not (l == x) && has l links)
unfolding has without keep
has-without l x [] = ground arith
has-without l x (y ∷ links) = ground (arith, has-without l x links)

-- a link that does not close
abbrev pub CloseFault : Kernel → Type 0
CloseFault k = (n : ℕ) × (l : Link) × (x : Error) × (k.close_link n l ≡ some x)

-- an interface that is not found
abbrev pub LookupFault : Kernel → Type 0
LookupFault k = (n : ℕ) × (name : GoString) × (x : Error) × (k.interface_by_name n name ≡ err x)

abbrev ChangedAt : Slot → Option Link → AttachmentManager → AttachmentManager → Type 0
ChangedAt slot o m m' = (s : Slot) → open_at m' s ≡ (if same_slot slot s then o else open_at m s)

split-has :
    (l x : Link) (links : List Link)
    → has l (without x links) ≡ true
    → (l ≢ x) × (has l links ≡ true)
split-has l x links p = ground (arith, has-without l x links)

pub eq-same_slot : (s t : Slot) → s ≡ t → same_slot s t ≡ true
eq-same_slot s t e = rw (← e) (same_slot_refl s)

pub data Move (F : Type 0) (m m' : AttachmentManager) : Type 0 where
  -- no attached link comes or goes
  kept :
      ((s : Slot) → open_at m' s ≡ open_at m s)
      → m'.net.links ≡ m.net.links
      → m.net.calls ≤ m'.net.calls
      → Move F m m'
  opened :
      (slot : Slot)
      → open_at m slot ≡ none
      → ChangedAt slot (some m.net.calls) m m'
      → m'.net.links ≡ m.net.calls ∷ m.net.links
      → m'.net.calls ≡ suc m.net.calls
      → Move F m m'
  closed :
      (slot : Slot) (l : Link)
      → open_at m slot ≡ some l
      → ChangedAt slot none m m'
      → m'.net.links ≡ without l m.net.links
      → m.net.calls ≤ m'.net.calls
      → Move F m m'
  -- for a reason `F`, the manager gives up a link that the kernel may hold
  lost :
      F
      → (slot : Slot) → ChangedAt slot none m m'
      → m'.net.links ≡ m.net.links
      → m.net.calls ≤ m'.net.calls
      → Move F m m'

pub data Moves (F : Type 0) (m : AttachmentManager) : AttachmentManager → Type 0 where
  still : Moves F m m
  then_move : {u v : AttachmentManager} → Moves F m u → Move F u v → Moves F m v

-- The kernel holds the links of the attached slots, and no two of these have the same link.
pub record IsSound (m : AttachmentManager) : Type 0 where
  pub live : (s : Slot) (l : Link) → open_at m s ≡ some l → has l m.net.links ≡ true
  pub unique : (s t : Slot) (l : Link) → open_at m s ≡ some l → open_at m t ≡ some l → s ≡ t
  pub below : (s : Slot) (l : Link) → open_at m s ≡ some l → l < m.net.calls

-- Every link that the kernel holds belongs to an attached slot.
abbrev pub IsHeld : AttachmentManager → Type 0
IsHeld m = (l : Link) → has l m.net.links ≡ true → (s : Slot) × (open_at m s ≡ some l)

pub Move-IsSound : {F : Type 0} {m m' : AttachmentManager} → Move F m m' → IsSound m → IsSound m'
unfolding has
Move-IsSound (kept same links calls) h = record {
  live = λ s l p. ground (arith, links, same s, h.live s l);
  unique = λ s t l p q. h.unique s t l (sym (same s) ∙ p) (sym (same t) ∙ q);
  below = λ s l p. ground (arith, same s, h.below s l);
}
Move-IsSound (opened slot free at links calls) h = record {
  live = λ s l p. ground (arith, links, at s, h.live s l);
  unique = λ s t l p q. ground (
    arith,
    at s,
    at t,
    h.unique s t l,
    h.below s l,
    h.below t l,
    same_slot_eq slot s,
    same_slot_eq slot t,
  );
  below = λ s l p. ground (arith, at s, h.below s l);
}
Move-IsSound {m = m} (closed slot x held at links calls) h = record {
  live = λ s l p. ground (
    arith,
    links,
    has-without l x m.net.links,
    at s,
    h.live s l,
    h.unique slot s x,
    eq-same_slot slot s,
  );
  unique = λ s t l p q. ground (arith, at s, at t, h.unique s t l);
  below = λ s l p. ground (arith, at s, h.below s l);
}
Move-IsSound (lost f slot at links calls) h = record {
  live = λ s l p. ground (arith, links, at s, h.live s l);
  unique = λ s t l p q. ground (arith, at s, at t, h.unique s t l);
  below = λ s l p. ground (arith, at s, h.below s l);
}

pub Move-IsHeld : {F : Type 0} {m m' : AttachmentManager} → ¬ F → Move F m m' → IsHeld m → IsHeld m'
unfolding has
Move-IsHeld ok (kept same links calls) h l p =
    let (s, q) = h l (subst (λ ls. has l ls ≡ true) links p) in (s, same s ∙ q)
Move-IsHeld {m = m} ok (opened slot free at links calls) h l p =
    elim (Bool-cases (m.net.calls == l)) [
      | inl e ↦ (slot, ground (arith, at slot, same_slot_refl slot))
      | inr e ↦
          let (s, q) = h l (ground (arith, subst (λ ls. has l ls ≡ true) links p)) in
          (s, ground (arith, at s, same_slot_eq slot s, free, q))
    ]
Move-IsHeld {m = m} ok (closed slot x held at links calls) h l p =
    let (other, there) = split-has l x m.net.links (subst (λ ls. has l ls ≡ true) links p) in
    let (s, q) = h l there in (s, ground (arith, at s, same_slot_eq slot s, held, q, other))
Move-IsHeld ok (lost f slot at links calls) h l p = absurd (ok f)

pub Moves-IsSound : {F : Type 0} {m m' : AttachmentManager} → Moves F m m' → IsSound m → IsSound m'
Moves-IsSound still h = h
Moves-IsSound (then_move ms move) h = Move-IsSound move (Moves-IsSound ms h)

pub Moves-IsHeld :
    {F : Type 0} {m m' : AttachmentManager} → ¬ F → Moves F m m' → IsHeld m → IsHeld m'
Moves-IsHeld ok still h = h
Moves-IsHeld ok (then_move ms move) h = Move-IsHeld ok move (Moves-IsHeld ok ms h)

pub Moves-append :
    {F : Type 0} {m u v : AttachmentManager} → Moves F m u → Moves F u v → Moves F m v
Moves-append p still = p
Moves-append p (then_move q move) = then_move (Moves-append p q) move
