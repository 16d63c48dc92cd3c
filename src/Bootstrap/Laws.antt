-- ===== src/Bootstrap/Laws.antt =====
-- The mode that the startup checks arrive at.
use mathlib.Core.List.{append-nil, append_assoc}
use wlt_traffic.Base.{
  ℕ, suc, ◌+◌, ◌≡◌, ◌≢◌, refl, Bool, true, false, none, some, List, [], ◌∷◌, ◌++◌, length, ◌==◌,
  arith, if◌then◌else◌, not, sym, ◌↔◌, ◌≤◌, Option-cases, inl, inr, ap, ◌∙◌,
}
use wlt_traffic.Base.Sort.{keep}
use wlt_traffic.Error.{Error}
use wlt_traffic.Storage.Types.{GoString}
use wlt_traffic.Bootstrap.{
  Mode, healthy, degraded, failed, StartupResult, Validator, check_iface, note_iface, check_ifaces,
  startup_outcome, initial_result, capability, validate,
}

-- the interface passes the checks
unfoldable pub passes : Validator → GoString → Bool
passes v iface = elim (check_iface v iface) [ none ↦ true | some x ↦ false ]

length_pos : {A : Type 0} (xs : List A) → xs ≢ [] → (length xs == 0) ≡ false
length_pos [] h = ground arith
length_pos (x ∷ xs) h = ground arith

length-keep_le : {A : Type 0} (p : A → Bool) (xs : List A) → length (keep p xs) ≤ length xs
unfolding keep
length-keep_le p [] = omega arith
length-keep_le p (x ∷ xs) = ground (arith, length-keep_le p xs)

module _ (v : Validator) where
  passes-none : (iface : GoString) → check_iface v iface ≡ none → passes v iface ≡ true
  unfolding passes
  passes-none iface e = rw (e, passes) refl

  passes-some :
      (iface : GoString) (x : Error) → check_iface v iface ≡ some x → passes v iface ≡ false
  unfolding passes
  passes-some iface x e = rw (e, passes) refl

  check_ifaces_attached :
      (ifaces : List GoString) (result : StartupResult) (n : ℕ)
      → (check_ifaces v ifaces (result, n)).0.attached_interfaces
        ≡ result.attached_interfaces ++ keep (passes v) ifaces
  unfolding check_ifaces keep
  check_ifaces_attached [] result n = sym (append-nil result.attached_interfaces)
  check_ifaces_attached (iface ∷ ifaces) result n = elim (Option-cases (check_iface v iface)) [
    | inl e ↦
        rw (e, check_ifaces, passes-none iface e, keep)
          (check_ifaces_attached ifaces (note_iface iface none (result, n)).0 (suc n)
            ∙ append_assoc result.attached_interfaces (iface ∷ []) (keep (passes v) ifaces))
    | inr (x, e) ↦
        rw (e, check_ifaces, passes-some iface x e, keep)
          (check_ifaces_attached ifaces (note_iface iface (some x) (result, n)).0 n)
  ]

  check_ifaces_failed :
      (ifaces : List GoString) (result : StartupResult) (n : ℕ)
      → (check_ifaces v ifaces (result, n)).0.failed_interfaces
        ≡ result.failed_interfaces ++ keep (λ iface. not (passes v iface)) ifaces
  unfolding check_ifaces keep
  check_ifaces_failed [] result n = sym (append-nil result.failed_interfaces)
  check_ifaces_failed (iface ∷ ifaces) result n = elim (Option-cases (check_iface v iface)) [
    | inl e ↦
        rw (e, check_ifaces, passes-none iface e, keep)
          (check_ifaces_failed ifaces (note_iface iface none (result, n)).0 (suc n))
    | inr (x, e) ↦
        rw (e, check_ifaces, passes-some iface x e, keep)
          (check_ifaces_failed ifaces (note_iface iface (some x) (result, n)).0 n
            ∙ append_assoc result.failed_interfaces (iface ∷ [])
                (keep (λ iface. not (passes v iface)) ifaces))
  ]

  check_ifaces_count :
      (ifaces : List GoString) (result : StartupResult) (n : ℕ)
      → (check_ifaces v ifaces (result, n)).1 ≡ n + length (keep (passes v) ifaces)
  unfolding check_ifaces keep
  check_ifaces_count [] result n = omega arith
  check_ifaces_count (iface ∷ ifaces) result n = elim (Option-cases (check_iface v iface)) [
    | inl e ↦
        rw (e, check_ifaces, passes-none iface e, keep)
          (check_ifaces_count ifaces (note_iface iface none (result, n)).0 (suc n) ∙ omega arith)
    | inr (x, e) ↦
        rw (e, check_ifaces, passes-some iface x e, keep)
          (check_ifaces_count ifaces (note_iface iface (some x) (result, n)).0 n)
  ]

  validated :
      v.cfg.interfaces ≢ []
      → capability v.check_capability ≡ none
      → validate v
        ≡ startup_outcome v.cfg (check_ifaces v v.cfg.interfaces (initial_result v.cfg, 0))
  unfolding validate
  validated some_iface capable = rw (capable, length_pos v.cfg.interfaces some_iface) refl

  startup_outcome-lists :
      (state : StartupResult × ℕ)
      → ((startup_outcome v.cfg state).0.attached_interfaces ≡ state.0.attached_interfaces)
        × ((startup_outcome v.cfg state).0.failed_interfaces ≡ state.0.failed_interfaces)
  unfolding startup_outcome
  startup_outcome-lists state = ground arith

  -- The mode that the number of interfaces that pass asks for.
  unfoldable pub mode_for : ℕ → Mode
  mode_for attached =
      if attached == 0
      then failed
      else if attached == length v.cfg.interfaces
      then healthy
      else if v.cfg.allow_partial
      then degraded
      else failed

  startup_outcome-mode :
      (state : StartupResult × ℕ)
      → state.1 ≤ length v.cfg.interfaces
      → ((startup_outcome v.cfg state).0.mode ≡ mode_for state.1)
        × (((startup_outcome v.cfg state).1 ≢ none)
            ↔ ((startup_outcome v.cfg state).0.mode ≡ failed))
  unfolding startup_outcome mode_for
  startup_outcome-mode state h = ground arith

  -- With an interface configured and the capability there, the result lists the interfaces that
  -- pass the checks and those that do not, each in the configured order.
  pub validate_lists :
      v.cfg.interfaces ≢ []
      → capability v.check_capability ≡ none
      → ((validate v).0.attached_interfaces ≡ keep (passes v) v.cfg.interfaces)
        × ((validate v).0.failed_interfaces ≡ keep (λ iface. not (passes v iface)) v.cfg.interfaces)
  validate_lists some_iface capable =
      let state = check_ifaces v v.cfg.interfaces (initial_result v.cfg, 0) in
      let (p, q) = startup_outcome-lists state in
      rw (validated some_iface capable) (
        p ∙ check_ifaces_attached v.cfg.interfaces (initial_result v.cfg) 0,
        q ∙ check_ifaces_failed v.cfg.interfaces (initial_result v.cfg) 0,
      )

  -- With an interface configured and the capability there, the mode is healthy if all interfaces
  -- pass the checks, failed if none does, and otherwise degraded or failed as `AllowPartial` says;
  -- an error is returned exactly if the mode is failed.
  pub validate_mode :
      v.cfg.interfaces ≢ []
      → capability v.check_capability ≡ none
      → ((validate v).0.mode ≡ mode_for (length (keep (passes v) v.cfg.interfaces)))
        × (((validate v).1 ≢ none) ↔ ((validate v).0.mode ≡ failed))
  validate_mode some_iface capable =
      let state = check_ifaces v v.cfg.interfaces (initial_result v.cfg, 0) in
      let count : state.1 ≡ length (keep (passes v) v.cfg.interfaces) =
        check_ifaces_count v.cfg.interfaces (initial_result v.cfg) 0 ∙ omega arith in
      let (p, q) =
        startup_outcome-mode state
          (omega (arith, count, length-keep_le (passes v) v.cfg.interfaces)) in
      rw (validated some_iface capable) (p ∙ ap mode_for count, q)
