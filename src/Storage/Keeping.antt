-- ===== src/Storage/Keeping.antt =====
-- What is stored is there again.
use job_mon.Base.{List, String, [], ap, false, if◌then◌else◌, none, refl, some, ◌==◌, ◌∙◌, ◌∷◌, ◌≡◌}
use job_mon.Js.Object.{delete, get, put}
use job_mon.Js.Object.Laws.{get-delete, get-put}
use job_mon.Storage.{
  Codec, Hook, IsFaithful, clear_state, finished, loaded_or, saved_of, session_effect,
  set_storage_state, start, storage_effect,
}
use text.Mathlib.TextPositions.{eq_refl}

module _ {T : Type 0} (codec : Codec T) (faithful : IsFaithful codec) (key : String) where
  read_saved :
      (fallback h : Hook T) (v : T)
      → loaded_or codec key fallback (saved_of codec key (some (codec.stringify v))) h
        ≡ some (record { storage = h.storage; state = v; is_loading = false })
  read_saved fallback h v = rw (faithful.not_blank v, faithful.parse-stringify v) refl

  -- If JSON reads what it wrote and never writes "", a value that was set is what both hooks load
  -- at the next start, whatever their default.
  pub set-survives :
      (v value : T) (h : Hook T)
      → let storage = (set_storage_state codec key v h).storage in
        (session_effect codec key value (start codec key value storage)
          ≡ some (record { storage = storage; state = v; is_loading = false }))
        × (storage_effect codec key value (start codec key value storage)
            ≡ some (record { storage = storage; state = v; is_loading = false }))
  unfolding session_effect storage_effect set_storage_state
  set-survives v value h =
      let stored : get key (put key (codec.stringify v) h.storage) ≡ some (codec.stringify v) =
        rw (get-put key key (codec.stringify v) h.storage, eq_refl key) refl in
      let storage = put key (codec.stringify v) h.storage in
      let first = start codec key value storage in
      (
        ap
              (λ o.
                loaded_or codec key (finished codec key (set_storage_state codec key value first))
                  (saved_of codec key o) first)
              stored
            ∙ read_saved (finished codec key (set_storage_state codec key value first)) first v,
        ap (λ o. loaded_or codec key (finished codec key first) (saved_of codec key o) first) stored
            ∙ read_saved (finished codec key first) first v,
      )

  -- The storage holds the text of the state.
  abbrev pub IsSynced : Hook T → Type 0
  IsSynced h = get key h.storage ≡ some (codec.stringify h.state)

  abbrev pub set_all : List T → Hook T → Hook T
  set_all [] h = h
  set_all (v ∷ vs) h = set_all vs (set_storage_state codec key v h)

  set-IsSynced : (v : T) (h : Hook T) → IsSynced (set_storage_state codec key v h)
  unfolding set_storage_state
  set-IsSynced v h = rw (get-put key key (codec.stringify v) h.storage, eq_refl key) refl

  set_all-IsSynced : (vs : List T) (h : Hook T) → IsSynced h → IsSynced (set_all vs h)
  set_all-IsSynced [] h s = s
  set_all-IsSynced (v ∷ vs) h s =
      set_all-IsSynced vs (set_storage_state codec key v h) (set-IsSynced v h)

  -- If JSON is faithful, after clearing both hooks start with the default, which the one for the
  -- session stores again; no other key of the storage is touched.
  pub clear-default :
      (value : T) (h : Hook T)
      → let storage = (clear_state codec key h).storage in
        ((s : Hook T) × (session_effect codec key value (start codec key value storage) ≡ some s)
          × (s.state ≡ value)
          × IsSynced s)
        × (storage_effect codec key value (start codec key value storage)
            ≡ some (record { storage = storage; state = value; is_loading = false }))
        × ((other : String)
            → get other storage ≡ (if key == other then none else get other h.storage))
  unfolding session_effect storage_effect clear_state
  clear-default value h =
      let gone : get key (delete key h.storage) ≡ none =
        rw (get-delete key key h.storage, eq_refl key) refl in
      let first = start codec key value (delete key h.storage) in
      let kept = set_storage_state codec key value first in
      (
        (
          finished codec key kept,
          ap (λ o. loaded_or codec key (finished codec key kept) (saved_of codec key o) first) gone,
          value_kept value first,
          set-IsSynced value first,
        ),
        ap (λ o. loaded_or codec key (finished codec key first) (saved_of codec key o) first) gone,
        λ other. get-delete key other h.storage,
      )
    where
      value_kept : (v : T) (h : Hook T) → (set_storage_state codec key v h).state ≡ v
      value_kept v h = refl
