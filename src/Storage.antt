-- ===== src/Storage.antt =====
-- `useSessionStorageState` and `useStorageState` of frontend/utils/utils.ts, in a browser. A storage
-- is an object of texts; what it refuses to store (a full storage) is left out. JSON is a parameter.
pub mod Keeping
mod Tests
use job_mon.Base.{Bool, Option, String, false, if◌then◌else◌, none, some, true, ◌==◌, ◌≡◌}
use job_mon.Js.Object.{Object, delete, get, put}

-- `JSON.stringify` and `JSON.parse` for the values of a hook; `none` is a `SyntaxError`.
pub record Codec (T : Type 0) : Type 0 where
  pub stringify : T → String
  pub parse : String → Option T

-- What a hook relies on: a value is read as it was written, and its text is not "".
pub record IsFaithful {T : Type 0} (codec : Codec T) : Type 0 where
  pub parse-stringify : (v : T) → codec.parse (codec.stringify v) ≡ some v
  pub not_blank : (v : T) → (codec.stringify v == "") ≡ false

pub record Hook (T : Type 0) : Type 0 where
  pub storage : Object String
  pub state : T
  pub is_loading : Bool

module _ {T : Type 0} (codec : Codec T) (key : String) where
  -- The first rendering of a hook.
  abbrev pub start : T → Object String → Hook T
  start value storage = record { storage = storage; state = value; is_loading = true }

  unfoldable pub set_storage_state : T → Hook T → Hook T
  unfolding put
  set_storage_state value h = record {
    storage = put key (codec.stringify value) h.storage;
    state = value;
    is_loading = h.is_loading;
  }

  unfoldable pub clear_state : Hook T → Hook T
  unfolding delete
  clear_state h = record {
    storage = delete key h.storage;
    state = h.state;
    is_loading = h.is_loading;
  }

  -- A text of the storage, if it is not "".
  abbrev pub saved_of : Option String → Option String
  saved_of none = none
  saved_of (some saved) = if saved == "" then none else some saved

  abbrev pub loaded : Hook T → Option T → Option (Hook T)
  loaded h none = none
  loaded h (some value) = some (record { storage = h.storage; state = value; is_loading = false })

  abbrev pub loaded_or : Hook T → Option String → Hook T → Option (Hook T)
  loaded_or fallback none h = some fallback
  loaded_or fallback (some saved) h = loaded h (codec.parse saved)

  abbrev pub finished : Hook T → Hook T
  finished h = record { storage = h.storage; state = h.state; is_loading = false }

  -- The effect of `useSessionStorageState`, which stores the default if nothing is saved.
  unfoldable pub session_effect : T → Hook T → Option (Hook T)
  unfolding set_storage_state get
  session_effect value h =
      loaded_or (finished (set_storage_state value h)) (saved_of (get key h.storage)) h

  -- The effect of `useStorageState`, which does not.
  unfoldable pub storage_effect : T → Hook T → Option (Hook T)
  unfolding get
  storage_effect value h = loaded_or (finished h) (saved_of (get key h.storage)) h
