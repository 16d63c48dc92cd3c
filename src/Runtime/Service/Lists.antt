-- ===== src/Runtime/Service/Lists.antt =====
-- The lists of `Start` are what the manager shows of the configured interfaces.
use wlt_traffic.Base.{
  ◌≡◌, ◌≢◌, ◌∙◌, inl, inr, refl, sym, ap, Bool, true, false, not, ◌&&◌, ◌||◌, List, [], ◌∷◌, ◌++◌,
  All, All-zip, AreDistinct, arith, if◌then◌else◌, ite, Bool-cases,
}
use mathlib.Core.List.{append-nil, append_assoc}
use wlt_traffic.Base.Sort.{keep}
use wlt_traffic.Error.{Error, Result, ok, err}
use wlt_traffic.Storage.Types.{GoString, GoString-discrete}
use wlt_traffic.Ebpf.Link.{Direction, direction_ingress, direction_egress, Kernel}
use wlt_traffic.Ebpf.Iface.{is_attached, has_failed}
use wlt_traffic.Ebpf.Attachment.{
  AttachmentManager, AttachResult, result_failed, attach_iface, get_iface_state, get_ingress,
  get_egress, is_mock_mode,
}
use wlt_traffic.Ebpf.Attachment.Status.{is_iface_attached}
use wlt_traffic.Ebpf.Attachment.Slots.{Slot, view}
use wlt_traffic.Ebpf.Attachment.Outcome.{
  any_failed, noted, Untried, attach_iface-view, attach_iface-failed, attach_iface-missing,
}
use wlt_traffic.Runtime.Service.{
  Attaching, contains, note_result, note_results, after_attach, options, no_options, attach_one,
  attach_each,
}

-- some direction of the interface has failed
unfoldable pub iface_failed : AttachmentManager → GoString → Bool
iface_failed m name =
    has_failed (view m (name, direction_ingress)) || has_failed (view m (name, direction_egress))

is_iface_attached-view :
    (m : AttachmentManager) (name : GoString)
    → is_iface_attached m name ≡ (
        is_attached (view m (name, direction_ingress))
        || is_attached (view m (name, direction_egress)))
unfolding is_iface_attached get_iface_state view
is_iface_attached-view m name = ground arith

abbrev pub add_if : Bool → GoString → List GoString → List GoString
add_if b name xs = if b then xs ++ (name ∷ []) else xs

contains-snoc :
    (xs : List GoString) (x y : GoString)
    → contains (xs ++ (x ∷ [])) y ≡ (contains xs y || ite (GoString-discrete x y) true false)
unfolding contains
contains-snoc [] x y = ground arith
contains-snoc (z ∷ xs) x y = ground (arith, contains-snoc xs x y)

-- the rounds over the results touch neither the manager nor the attached names
note_results-manager :
    (name : GoString) (results : List AttachResult) (st : Attaching)
    → ((note_results name results st).manager ≡ st.manager)
      × ((note_results name results st).attached ≡ st.attached)
unfolding note_results
note_results-manager name [] st = (refl, refl)
note_results-manager name (r ∷ results) st = elim (Bool-cases (result_failed r)) [
  | inl e ↦
      let (p, q) = note_results-manager name results (note_result name r st) in
      (ground (arith, p, e), ground (arith, q, e))
  | inr e ↦
      let (p, q) = note_results-manager name results (note_result name r st) in
      (ground (arith, p, e), ground (arith, q, e))
]

note_results-failed :
    (name : GoString) (results : List AttachResult) (st : Attaching)
    → (note_results name results st).failed
      ≡ add_if (not (contains st.failed name) && any_failed results) name st.failed
unfolding note_results
note_results-failed name [] st = ground arith
note_results-failed name (r ∷ results) st =
    let next = note_results-failed name results (note_result name r st) in
    elim (Bool-cases (result_failed r)) [
      | inr e ↦ ground (arith, e, next)
      | inl e ↦ elim (Bool-cases (contains st.failed name)) [
        | inl c ↦ ground (arith, e, c, next)
        | inr c ↦ next ∙ rw (e, c, contains-snoc st.failed name name) (ground arith)
      ]
    ]

-- the lists after a round, from those before it
abbrev Noted : GoString → Attaching → Attaching → Type 0
Noted name st st' =
    (st'.attached ≡ add_if (is_iface_attached st'.manager name) name st.attached)
    × (st'.failed ≡ add_if (iface_failed st'.manager name) name st.failed)

module _ (k : Kernel) where
  after_attach-Noted :
      (name : GoString) (st : Attaching) (r : Result (List AttachResult)) (m : AttachmentManager)
      → contains st.failed name ≡ false
      → noted k name r ≡ iface_failed m name
      → ((x : Error) → r ≡ err x → is_iface_attached m name ≡ false)
      → Noted name st (after_attach name st (r, m))
  unfolding after_attach
  after_attach-Noted name st (err x) m fresh f missing =
      (ground (arith, missing x refl), ground (arith, f))
  after_attach-Noted name st (ok results) m fresh f missing =
      let begun : Attaching = record st { manager = m } in
      let (p, q) = note_results-manager name results begun in
      let g = note_results-failed name results begun in
      (ground (arith, p, q), ground (arith, p, g, f, fresh))

  no_options-mock : (m : AttachmentManager) → no_options m ≡ true → is_mock_mode m ≡ true
  unfolding get_ingress get_egress is_mock_mode
  no_options-mock m e = ground (arith, e)

  -- the interface has not come up yet
  abbrev pub Ready : Attaching → GoString → Type 0
  Ready st name =
      (contains st.failed name ≡ false)
      × Untried k name st.manager direction_ingress
      × Untried k name st.manager direction_egress

  attach_one-Noted :
      (name : GoString) (st : Attaching) → Ready st name → Noted name st (attach_one k name st)
  unfolding attach_one iface_failed
  attach_one-Noted name st (fresh, p, q) = elim (Bool-cases (no_options st.manager)) [
    | inl e ↦ rw e (
      ground (arith, no_options-mock st.manager e, is_iface_attached-view st.manager name, p, q),
      ground (arith, no_options-mock st.manager e, p, q),
    )
    | inr e ↦ rw e (
        let opts = options st.manager in
        let (r, m) = attach_iface k name opts st.manager in
        after_attach-Noted name st r m fresh (attach_iface-failed k name opts st.manager p q)
          (λ x z. is_iface_attached-view m name ∙ attach_iface-missing k name opts st.manager x z))
  ]

  -- a round leaves the other interfaces alone
  pub after_attach-manager :
      (name : GoString) (st : Attaching) (r : Result (List AttachResult)) (m : AttachmentManager)
      → (after_attach name st (r, m)).manager ≡ m
  unfolding after_attach
  after_attach-manager name st (err x) m = refl
  after_attach-manager name st (ok results) m =
      ground (arith, note_results-manager name results (record st { manager = m }))

  attach_one-view :
      (name : GoString) (st : Attaching) (s : Slot)
      → s.0 ≢ name
      → view (attach_one k name st).manager s ≡ view st.manager s
  unfolding attach_one
  attach_one-view name st s other = elim (Bool-cases (no_options st.manager)) [
    | inl e ↦ rw e (ground arith)
    | inr e ↦ rw e (
        let opts = options st.manager in
        let (r, m) = attach_iface k name opts st.manager in
        ap (λ u. view u s) (after_attach-manager name st r m)
        ∙ attach_iface-view k name opts st.manager s other)
  ]

  pub attach_each-view :
      (names : List GoString) (st : Attaching) (s : Slot)
      → All (λ name. s.0 ≢ name) names
      → view (attach_each k names st).manager s ≡ view st.manager s
  unfolding attach_each
  attach_each-view [] st s other = refl
  attach_each-view (name ∷ names) st s other =
      attach_each-view names (attach_one k name st) s other.1 ∙ attach_one-view name st s other.0

  add_if-contains :
      (b : Bool) (x y : GoString) (xs : List GoString)
      → contains xs y ≡ false
      → x ≢ y
      → contains (add_if b x xs) y ≡ false
  add_if-contains true x y xs h other = ground (arith, contains-snoc xs x y, h, other)
  add_if-contains false x y xs h other = h

  pub attach_one-Ready :
      (name : GoString) (st : Attaching) (other : GoString)
      → Ready st name
      → name ≢ other
      → Ready st other
      → Ready (attach_one k name st) other
  attach_one-Ready name st other ready apart (fresh, p, q) =
      let st' = attach_one k name st in
      let same = λ (d : Direction). attach_one-view name st (other, d) (λ e. apart (sym e)) in
      (
        rw ((attach_one-Noted name st ready).1)
            (add_if-contains (iface_failed st'.manager name) name other st.failed fresh apart),
        rw (same direction_ingress) p,
        rw (same direction_egress) q,
      )

  -- what a later round leaves alone
  abbrev Same : AttachmentManager → AttachmentManager → GoString → Type 0
  Same m m' name =
      (is_iface_attached m' name ≡ is_iface_attached m name)
      × (iface_failed m' name ≡ iface_failed m name)

  attach_each-Same :
      (names : List GoString) (st : Attaching) (name : GoString)
      → All (λ other. name ≢ other) names
      → Same st.manager (attach_each k names st).manager name
  unfolding iface_failed
  attach_each-Same names st name apart =
      let m = (attach_each k names st).manager in
      let p = attach_each-view names st (name, direction_ingress) apart in
      let q = attach_each-view names st (name, direction_egress) apart in
      (
        is_iface_attached-view m name ∙ rw (p, q) (sym (is_iface_attached-view st.manager name)),
        rw (p, q) refl,
      )

  add_if-keep :
      (b : Bool) (f : GoString → Bool) (name : GoString) (xs names : List GoString)
      → f name ≡ b
      → add_if b name xs ++ keep f names ≡ xs ++ keep f (name ∷ names)
  unfolding keep
  add_if-keep true f name xs names e = rw e (append_assoc xs (name ∷ []) (keep f names))
  add_if-keep false f name xs names e = rw e refl

  pub attach_each-lists :
      (names : List GoString) (st : Attaching)
      → AreDistinct names
      → All (Ready st) names
      → let st' = attach_each k names st in
        (st'.attached ≡ st.attached ++ keep (is_iface_attached st'.manager) names)
        × (st'.failed ≡ st.failed ++ keep (iface_failed st'.manager) names)
  unfolding attach_each keep
  attach_each-lists [] st distinct ready =
      (sym (append-nil st.attached), sym (append-nil st.failed))
  attach_each-lists (name ∷ names) st (apart, distinct) (r, ready) =
      let st' = attach_one k name st in
      let m = (attach_each k names st').manager in
      let (a, f) = attach_one-Noted name st r in
      let (p, q) = attach_each-Same names st' name apart in
      let (x, y) = attach_each-lists names st' distinct (
        All-zip (λ other. name ≢ other) (Ready st) (Ready st')
          (λ other n z. attach_one-Ready name st other r n z) names apart ready) in
      (
        x
            ∙ ap (λ xs. xs ++ keep (is_iface_attached m) names) a
            ∙ add_if-keep (is_iface_attached st'.manager name) (is_iface_attached m) name
                st.attached names p,
        y
            ∙ ap (λ xs. xs ++ keep (iface_failed m) names) f
            ∙ add_if-keep (iface_failed st'.manager name) (iface_failed m) name st.failed names q,
      )
