-- ===== src/Extension.antt =====
-- php_botan.cc and php_botan.h: the PHP extension. The Zend engine's own types and macros are
-- parameters.
pub mod Initializer
pub mod Version
mod Tests
use php_botan.Base.{ℕ, List, [], ◌∷◌, Bool, true, Option}
use php_botan.Extension.Initializer.{Called, returned, thrown, overrun, initialize, deinitialize}
use Prim.Native.String.{String}

abbrev pub php_botan_extname : String
php_botan_extname = "botan"

abbrev pub php_botan_extver : String
php_botan_extver = "0.1"

-- `zend_module_entry`, as far as the extension fills it in: the hooks that are NULL are left out.
pub record ModuleEntry {ℓ} (Handler : Type ℓ) : Type ℓ where
  pub name : String
  pub functions : List (String × Handler)
  pub module_startup : Bool
  pub version : String

-- PHP_MINIT_FUNCTION(botan), with SUCCESS as `true`.
pub minit : Bool
minit = true

-- The argument of `init`.
abbrev pub options : List ℕ
options =
    b't' ∷ b'h' ∷ b'r' ∷ b'e' ∷ b'a' ∷ b'd' ∷ b'_' ∷ b's' ∷ b'a' ∷ b'f' ∷ b'e' ∷ b'=' ∷ b'y' ∷ b'e'
    ∷ b's' ∷ []

module _ {ℓ} {S V : Type ℓ} (return_string : String → Bool → V) where
  -- `init` lives to the end of the function, so that its destructor runs after RETURN_STRING has set
  -- the result. Where its constructor fails, neither happens.
  unfoldable pub after_init : Called (Unit {ℓ}) × Option S → Called V × Option S
  unfolding deinitialize
  after_init (returned done, new_state) =
      (returned (return_string php_botan_extver true), deinitialize new_state)
  after_init (thrown, new_state) = (thrown, new_state)
  after_init (overrun, new_state) = (overrun, new_state)

-- The global state of the library is as in Extension.Initializer.
module _ {ℓ} {S V : Type ℓ} (fresh : S) (start : Bool → S → Option S)
    (return_string : String → Bool → V) where
  unfoldable pub botan_version : Option S → Called V × Option S
  unfolding initialize after_init
  botan_version old_state = after_init return_string (initialize fresh start options old_state)

  pub botan_functions : List (String × (Option S → Called V × Option S))
  botan_functions = ("botan_version", botan_version) ∷ []

  unfoldable pub botan_module_entry : ModuleEntry (Option S → Called V × Option S)
  unfolding minit botan_functions
  botan_module_entry = record {
    name = php_botan_extname;
    functions = botan_functions;
    module_startup = minit;
    version = php_botan_extver;
  }
