-- ===== src/Clients.antt =====
-- crates/ruststream-kinesis/src/clients.rs: which SDK client a request uses. A thread keeps its slots; a
-- selection is named by its token, a runtime by its id, and a built client by the number of its build.
pub mod Own
use ruststream_kinesis.Prelude.{
  ℕ, ◌+◌, ◌==◌, Bool, true, false, Option, none, some, List, [], ◌∷◌, ◌++◌, if◌then◌else◌,
}

-- `Slot`
pub record Slot : Type 0 where
  pub owner : ℕ
  pub own : Option ℕ

-- The client of a request: the one that its selection was built with, or one of the thread's own.
pub data Chosen : Type 0 where
  home_client : Chosen
  own_client : ℕ → Chosen

-- The home runtimes of the selections, the slots of a thread, and the clients built for threads so far.
pub record Thread : Type 0 where
  pub home : ℕ → Option ℕ
  pub slots : List Slot
  pub built : ℕ

-- `slots.iter().find(..)`
unfoldable pub find : ℕ → List Slot → Option Slot
find token [] = none
find token (slot ∷ slots) = if slot.owner == token then some slot else find token slots

-- `slots.retain(|slot| slot.owner.strong_count() > 0)`
unfoldable pub retain : (ℕ → Bool) → List Slot → List Slot
retain alive [] = []
retain alive (slot ∷ slots) =
    let rest = retain alive slots in if alive slot.owner then slot ∷ rest else rest

abbrev pub chosen : Option ℕ → Chosen
chosen none = home_client
chosen (some client) = own_client client

-- `home.get_or_init(|| current)`
abbrev pub get_or_init : Option ℕ → ℕ → ℕ
get_or_init none current = current
get_or_init (some home) current = home

-- The first request of a selection inside a runtime.
unfoldable pub enter : ℕ → ℕ → (ℕ → Bool) → Thread → Chosen × Thread
enter token current alive t =
    let home = get_or_init (t.home token) current in
    let own : Option ℕ = if home == current then none else some t.built in
    (
      chosen own,
      record {
        home = λ other. if other == token then some home else t.home other;
        slots = retain alive t.slots ++ record { owner = token; own = own } ∷ [];
        built = if home == current then t.built else t.built + 1;
      },
    )

-- `RuntimeClients::with`: the client it hands the request, on a thread in the runtime `current`, if any;
-- `alive` tells the tokens of brokers that are not gone.
unfoldable pub with_client : ℕ → Option ℕ → (ℕ → Bool) → Thread → Chosen × Thread
with_client token current alive t = elim (find token t.slots) [
  | some slot ↦ (chosen slot.own, t)
  | none ↦ elim current [ none ↦ (home_client, t) | some runtime ↦ enter token runtime alive t ]
]
