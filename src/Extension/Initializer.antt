-- ===== src/Extension/Initializer.antt =====
-- libstate/init.cpp, libstate/init.h and the pointer to the global state in libstate/libstate.cpp. A
-- global state is a parameter: `fresh` is a new Library_State, and `start` its member `initialize`,
-- which throws or changes it. The pointer is 0 where it is `none`.
use php_botan.Base.{
  ℕ, List, [], ◌∷◌, Bool, true, false, not, ◌&&◌, ◌||◌, Option, none, some, ◌==◌, if◌then◌else◌,
}
use php_botan.Base.Exceptn.{Result, ok, throw}
use php_botan.Utils.Parsing.{split_on}

-- A call returns, throws, or reads behind a vector.
pub data Called {ℓ} (A : Type ℓ) : Type ℓ where
  returned : A → Called A
  thrown : Called A
  overrun : Called A

abbrev pub and_then {ℓ} : {A B : Type ℓ} → Called A → (A → Called B) → Called B
and_then (returned a) next = next a
and_then thrown next = thrown
and_then overrun next = overrun

-- Strings are the lists of their characters.
same_text : List ℕ → List ℕ → Bool
same_text [] [] = true
same_text [] (d ∷ t) = false
same_text (c ∷ s) [] = false
same_text (c ∷ s) (d ∷ t) = c == d && same_text s t

has_char : ℕ → List ℕ → Bool
has_char delim [] = false
has_char delim (c ∷ s) = c == delim || has_char delim s

is_on : List ℕ → Bool
unfolding same_text
is_on value =
    (same_text value (b'1' ∷ []) || same_text value (b't' ∷ b'r' ∷ b'u' ∷ b'e' ∷ []))
    || (same_text value (b'y' ∷ b'e' ∷ b's' ∷ []) || same_text value (b'o' ∷ b'n' ∷ []))

-- `name_and_value[0]` and `name_and_value[1]`.
first_two : Result (List (List ℕ)) → Called (List ℕ × List ℕ)
first_two (throw e) = thrown
first_two (ok []) = overrun
first_two (ok (name ∷ [])) = overrun
first_two (ok (name ∷ value ∷ others)) = returned (name, value)

name_and_value : List ℕ → Called (List ℕ × List ℕ)
unfolding has_char first_two split_on
name_and_value argument =
    if not (has_char b'=' argument)
    then returned (argument, b't' ∷ b'r' ∷ b'u' ∷ b'e' ∷ [])
    else first_two (split_on argument b'=')

-- The loop over `arg_list`, and `thread_safe` behind it.
read_arguments : Bool → List (List ℕ) → Called Bool
unfolding name_and_value same_text is_on
read_arguments thread_safe [] = returned thread_safe
read_arguments thread_safe ([] ∷ arguments) = read_arguments thread_safe arguments
read_arguments thread_safe ((c ∷ s) ∷ arguments) = and_then (name_and_value (c ∷ s)) (λ pair.
    read_arguments
      (if same_text pair.0
          (b't' ∷ b'h' ∷ b'r' ∷ b'e' ∷ b'a' ∷ b'd' ∷ b'_' ∷ b's' ∷ b'a' ∷ b'f' ∷ b'e' ∷ [])
        then is_on pair.1
        else thread_safe)
      arguments)

thread_safe_of : Result (List (List ℕ)) → Called Bool
unfolding read_arguments
thread_safe_of (throw e) = thrown
thread_safe_of (ok arguments) = read_arguments false arguments

module _ {ℓ} {S : Type ℓ} where
  -- The pointer after the call, and the pointer that it had.
  swap_global_state : Option S → Option S → Option S × Option S
  swap_global_state new_state old_state = (new_state, old_state)

  set_global_state : Option S → Option S → Option S
  unfolding swap_global_state
  set_global_state new_state old_state = (swap_global_state new_state old_state).0

  unfoldable pub deinitialize : Option S → Option S
  unfolding set_global_state
  deinitialize old_state = set_global_state none old_state

  -- After `start` in the `try`, and in its handler.
  unfoldable pub end_start : Option S → Option S → Called (Unit {ℓ}) × Option S
  unfolding deinitialize
  end_start none new_state = (thrown, deinitialize new_state)
  end_start (some s) new_state = (returned tt, some s)

module _ {ℓ} {S : Type ℓ} (fresh : S) (start : Bool → S → Option S) where
  -- The two steps in the `try`.
  start_global_state : Bool → Option S → Called (Unit {ℓ}) × Option S
  unfolding set_global_state end_start
  start_global_state thread_safe old_state =
      let new_state = set_global_state (some fresh) old_state in
      end_start (start thread_safe fresh) new_state

  unfoldable pub initialize : List ℕ → Option S → Called (Unit {ℓ}) × Option S
  unfolding thread_safe_of start_global_state split_on
  initialize arg_string old_state = elim (thread_safe_of (split_on arg_string b' ')) [
    | returned thread_safe ↦ start_global_state thread_safe old_state
    | thrown ↦ (thrown, old_state)
    | overrun ↦ (overrun, old_state)
  ]
