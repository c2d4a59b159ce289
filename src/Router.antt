-- ===== src/Router.antt =====
-- The command router of plugins: librtimv/rtimvCommandInterface.cpp. Objects and protocol names are
-- numbers; what the plugins answer, and which objects are alive, is the `World`.
pub mod Lookup
pub mod Send
mod Tests
use rtimv.Common.{
  ℕ, Option, none, some, Bool, true, false, not, ◌||◌, ◌&&◌, List, [], ◌∷◌, ◌++◌, ◌==◌,
  if◌then◌else◌, is_null,
}

-- What `sendCommands` does: it returns, with the error text that it leaves, or throws.
pub data Outcome : Type 0 where
  returns : Bool → Option ℕ → Outcome
  throws : ℕ → Outcome  -- a `std::exception`, with its text
  throws_other : Outcome

pub record Provider (Command Snapshot : Type 0) : Type 0 where
  pub protocol : ℕ
  pub send_commands : List Command → Outcome
  pub property_snapshot : ℕ → ℕ → Option Snapshot  -- `none` where it throws

-- `cast` is what `qobject_cast` gives for an object that is alive.
pub record World (Command Snapshot : Type 0) : Type 0 where
  pub alive : ℕ → Bool
  pub cast : ℕ → Option (Provider Command Snapshot)

-- A weak reference in the list that equals the object: one to a dead object is null.
abbrev pub refers : {C S : Type 0} → World C S → ℕ → ℕ → Bool
refers w object existing = w.alive existing && existing == object

abbrev pub listed : {C S : Type 0} → World C S → ℕ → List ℕ → Bool
listed w object [] = false
listed w object (i ∷ is) = refers w object i || listed w object is

-- `none` is a null pointer. The object that is added is alive.
unfoldable pub add_provider : {C S : Type 0} → World C S → Option ℕ → List ℕ → List ℕ
add_provider w none providers = providers
add_provider w (some object) providers =
    if is_null (w.cast object) || listed w object providers
    then providers
    else providers ++ object ∷ []

-- The provider at an entry, if it is alive and speaks the protocol.
abbrev pub candidate : {C S : Type 0} → World C S → ℕ → ℕ → Option (Provider C S)
candidate w protocol i = elim (w.cast i) [
  | none ↦ none
  | some p ↦ if w.alive i && p.protocol == protocol then some p else none
]

-- The loop of `provider`, with what was found so far.
pub scan : {C S : Type 0} → World C S → ℕ → Option (Provider C S) → List ℕ → Option (Provider C S)
scan w protocol found [] = found
scan w protocol found (i ∷ is) = elim (candidate w protocol i) [
  | none ↦ scan w protocol found is
  | some p ↦ elim found [ none ↦ scan w protocol (some p) is | some q ↦ none ]
]

unfoldable pub provider : {C S : Type 0} → World C S → ℕ → List ℕ → Option (Provider C S)
unfolding scan
provider w protocol providers = scan w protocol none providers

-- The error texts of the router itself, and those of a provider.
pub data Error : Type 0 where
  unavailable empty_command command_failed : Error
  text : ℕ → Error

abbrev pub texts : Option ℕ → Option Error
texts none = none
texts (some e) = some (text e)

-- What `send` returns of an outcome, with the error.
pub settle : Outcome → Bool × Option Error
settle (returns ok e) = (ok, texts e)
settle (throws e) = (false, some (text e))
settle throws_other = (false, some command_failed)

-- `send`, once the provider was looked up.
pub hand_over : {C S : Type 0} → Option (Provider C S) → List C → Bool × Option Error
unfolding settle
hand_over none commands = (false, some unavailable)
hand_over (some target) [] = (false, some empty_command)
hand_over (some target) (c ∷ cs) = settle (target.send_commands (c ∷ cs))

unfoldable pub send : {C S : Type 0} → World C S → ℕ → List C → List ℕ → Bool × Option Error
unfolding hand_over
send w protocol commands providers = hand_over (provider w protocol providers) commands

-- `empty` is the snapshot that is not valid.
unfoldable pub snapshot : {C S : Type 0} → World C S → S → ℕ → ℕ → ℕ → List ℕ → S
snapshot w empty protocol device property providers = elim (provider w protocol providers) [
  | none ↦ empty
  | some source ↦ elim (source.property_snapshot device property) [ none ↦ empty | some s ↦ s ]
]
