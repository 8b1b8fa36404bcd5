-- ===== src/Extension/Version.antt =====
-- What a call of botan_version returns, and what it leaves of the library.
use php_botan.Base.{◌≡◌, ◌≢◌, ◌↔◌, ◌⊎◌, inl, inr, refl, sym, ap, Bool, true, Option, none, some}
use php_botan.Extension.Initializer.{returned, thrown, overrun, end_start, initialize, deinitialize}
use php_botan.Extension.{php_botan_extver, options, after_init, botan_version, botan_module_entry}
use Prim.Native.String.{String}

module _ {ℓ} {S V : Type ℓ} (fresh : S) (start : Bool → S → Option S)
    (return_string : String → Bool → V) where
  outcome : (o : Option S) → (o ≡ none) ⊎ ((s : S) × (o ≡ some s))
  outcome none = inl refl
  outcome (some s) = inr (s, refl)

  initialize_when_thrown :
      (old_state : Option S)
      → start true fresh ≡ none
      → initialize fresh start options old_state ≡ (thrown, none)
  unfolding initialize end_start
  initialize_when_thrown old_state e = ap (λ o. end_start o (some fresh)) e

  version_when_thrown :
      (old_state : Option S)
      → start true fresh ≡ none
      → botan_version fresh start return_string old_state ≡ (thrown, none)
  unfolding botan_version after_init
  version_when_thrown old_state e =
      ap (after_init return_string) (initialize_when_thrown old_state e)

  initialize_when_started :
      (old_state : Option S) (s : S)
      → start true fresh ≡ some s
      → initialize fresh start options old_state ≡ (returned tt, some s)
  unfolding initialize end_start
  initialize_when_started old_state s e = ap (λ o. end_start o (some fresh)) e

  version_when_started :
      (old_state : Option S) (s : S)
      → start true fresh ≡ some s
      → botan_version fresh start return_string old_state
        ≡ (returned (return_string php_botan_extver true), none)
  unfolding botan_version after_init deinitialize
  version_when_started old_state s e =
      ap (after_init return_string) (initialize_when_started old_state s e)

  -- Whatever global state the library had and however a new one starts, after a call of botan_version
  -- there is none. The call returns the version that the module registers exactly when a new state
  -- can be started thread-safely, returns nothing else, and never reads behind its list of arguments.
  pub botan_version_lem :
      (old_state : Option S) (v : V)
      → ((botan_version fresh start return_string old_state).1 ≡ none)
        × (((botan_version fresh start return_string old_state).0 ≡ returned v) ↔ (
            (v ≡ return_string (botan_module_entry fresh start return_string).version true)
            × (start true fresh ≢ none)))
        × ((botan_version fresh start return_string old_state).0 ≢ overrun)
  unfolding botan_module_entry
  botan_version_lem old_state v = elim (outcome (start true fresh)) [
    | inl e ↦ rw (version_when_thrown old_state e) (refl, (λ h. cc, λ p. absurd (p.1 e)), λ h. cc)
    | inr (s, e) ↦
        rw (version_when_started old_state s e)
          (refl, (λ h. (cc, λ x. cc), λ p. ap returned (sym p.0)), λ h. cc)
  ]
