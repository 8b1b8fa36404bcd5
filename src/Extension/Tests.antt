-- ===== src/Extension/Tests.antt =====
-- The extension over a library whose state is the mode of its mutexes, which it takes once.
use php_botan.Base.{◌≡◌, ◌≢◌, ◌↔◌, refl, [], ◌∷◌, Bool, true, false, Option, some, none}
use Prim.Native.String.{String}
use php_botan.Extension.Initializer.{returned, thrown, overrun, initialize}
use php_botan.Extension.{botan_version, botan_module_entry}
use php_botan.Extension.Version.{botan_version_lem}

abbrev start : Bool → Option Bool → Option (Option Bool)
start thread_safe none = some (some thread_safe)
start thread_safe (some mode) = none

abbrev value : String → Bool → String
value s duplicate = s

abbrev running : Option (Option Bool)
running = some (some false)

botan_version_lem_example :
    ((botan_version none start value running).1 ≡ none)
    × (((botan_version none start value running).0 ≡ returned "0.1") ↔ (
        ("0.1" ≡ value (botan_module_entry none start value).version true)
        × (start true none ≢ none)))
    × ((botan_version none start value running).0 ≢ overrun)
botan_version_lem_example = botan_version_lem none start value running "0.1"

-- "x=" throws, and "=x" is read behind its parts.
throws_run : initialize {S = Option Bool} none start (b'x' ∷ b'=' ∷ []) running ≡ (thrown, running)
unfolding initialize
throws_run = refl

overrun_run :
    initialize {S = Option Bool} none start (b'=' ∷ b'x' ∷ []) running ≡ (overrun, running)
unfolding initialize
overrun_run = refl
