-- ===== src/Server/Store.antt =====
-- apps/server/src/correction-session-store.ts, and the calls of correction-session-manager.ts on the
-- store. `now` is the time in milliseconds at which a call is made, and a mutex is its `busy`. The
-- lock of a session makes a call on it one step; what waits for a lock shows only as busy.
use kbo_workbench.Prelude.{
  Bool, List, Option, [], false, filter, if◌then◌else◌, leb, length, none, not, some, ℕ, ◌&&◌, ◌-◌,
  ◌==◌, ◌∷◌,
}
use kbo_workbench.Collections.Dict.{Dict, insert, lookup}
use kbo_workbench.Server.Calls.{SessionCall, handle, session_after}
use kbo_workbench.Server.Session.{
  Answer, InternalSession, SessionError, SessionSource, answered, create, is_empty, refused, shown,
}
use kbo_workbench.Server.StoredFindings.{CanonicalText}

pub record SessionStore : Type 0 where
  pub sessions : Dict InternalSession
  pub mutexes : Dict Bool
  pub accessed_at : Dict ℕ

-- `map.delete(key)`
abbrev remove_key {ℓ} : {V : Type ℓ} → ℕ → Dict V → Dict V
remove_key k d = filter (λ e. not (e.0 == k)) d

abbrev pub remove_session : ℕ → SessionStore → SessionStore
remove_session id st = record {
  sessions = remove_key id st.sessions;
  mutexes = remove_key id st.mutexes;
  accessed_at = remove_key id st.accessed_at;
}

abbrev is_busy : Option Bool → Bool
is_busy none = false
is_busy (some b) = b

abbrev time_or : ℕ → Option ℕ → ℕ
time_or now none = now
time_or now (some t) = t

-- A session without work that no call holds and no one has asked for in half an hour.
abbrev is_abandoned : ℕ → SessionStore → ℕ × InternalSession → Bool
is_abandoned now st (id, s) =
    is_empty s.undo_stack
    && not (is_busy (lookup id st.mutexes))
    && leb 1800000 (now - time_or now (lookup id st.accessed_at))

unfoldable pub evict : ℕ → Dict InternalSession → SessionStore → SessionStore
evict now [] st = st
evict now ((id, s) ∷ es) st =
    evict now es (if is_abandoned now st (id, s) then remove_session id st else st)

-- `makeRoom`: the store, and whether it throws for want of room.
unfoldable pub make_room : ℕ → SessionStore → SessionStore × Bool
unfolding evict
make_room now st = let kept = evict now st.sessions st in (kept, leb 64 (length kept.sessions))

unfoldable pub add : ℕ → InternalSession → SessionStore → SessionStore × Answer InternalSession
unfolding make_room
add now s st =
    let (kept, full) = make_room now st in
    if full then (kept, refused SessionError.session_limit) else (
      record {
        sessions = insert s.session_id s kept.sessions;
        mutexes = insert s.session_id false kept.mutexes;
        accessed_at = insert s.session_id now kept.accessed_at;
      },
      answered s,
    )

-- The snapshot that `create` returns is kept in the session.
abbrev pub added : ℕ → SessionStore → Answer InternalSession → SessionStore × Answer InternalSession
added now st (refused e) = (st, refused e)
added now st (answered s) = add now (shown s) st

-- `create` of the manager, which makes room before it compiles.
unfoldable pub open_session :
    CanonicalText → ℕ → ℕ → SessionSource → SessionStore → SessionStore × Answer InternalSession
unfolding make_room add create
open_session text now id source st =
    let (kept, full) = make_room now st in
    if full
    then (kept, refused SessionError.session_limit)
    else added now kept (create text id source)

-- `required`: asking for a session marks it as accessed.
abbrev accessed : ℕ → ℕ → SessionStore → SessionStore
accessed now id st = record st { accessed_at = insert id now st.accessed_at }

-- `withSessionLock` around one call, for a session that is there under its mutex.
abbrev locked_call :
    CanonicalText
    → ℕ
    → ℕ
    → ℕ
    → SessionCall
    → SessionStore
    → Option InternalSession
    → SessionStore × Answer InternalSession
locked_call text now id expected call st none = (st, refused SessionError.session_not_found)
locked_call text now id expected call st (some s) =
    let seen = accessed now id st in
    if s.session_version == expected
    then (
      record seen { sessions = insert id (session_after (handle text call s) s) st.sessions },
      handle text call s,
    )
    else (seen, refused SessionError.stale_session)

unfoldable pub with_session_lock :
    CanonicalText → ℕ → ℕ → ℕ → SessionCall → SessionStore → SessionStore × Answer InternalSession
unfolding handle
with_session_lock text now id expected call st = elim (lookup id st.mutexes) [
  | none ↦ (st, refused SessionError.session_not_found)
  | some busy ↦ locked_call text now id expected call st (lookup id st.sessions)
]

-- `delete`, which throws for a session of another version.
abbrev deleted : ℕ → ℕ → ℕ → SessionStore → Option InternalSession → SessionStore
deleted now id expected st none = st
deleted now id expected st (some s) =
    if s.session_version == expected then remove_session id st else accessed now id st

unfoldable pub delete_session : ℕ → ℕ → ℕ → SessionStore → SessionStore
delete_session now id expected st = elim (lookup id st.mutexes) [
  | none ↦ st
  | some busy ↦ deleted now id expected st (lookup id st.sessions)
]

-- `clear`
abbrev no_sessions : SessionStore
no_sessions = record { sessions = []; mutexes = []; accessed_at = [] }

-- `get`
abbrev shown_in : ℕ → ℕ → SessionStore → Option InternalSession → SessionStore
shown_in now id st none = st
shown_in now id st (some s) = record (accessed now id st) {
  sessions = insert id (shown s) st.sessions;
}

pub data StoreCall : Type 0 where
  gets : ℕ → StoreCall
  opens : ℕ → SessionSource → StoreCall
  calls : ℕ → ℕ → SessionCall → StoreCall
  deletes : ℕ → ℕ → StoreCall
  closes : StoreCall

unfoldable pub store_step : CanonicalText → ℕ × StoreCall → SessionStore → SessionStore
unfolding open_session with_session_lock delete_session
store_step text (now, StoreCall.gets id) st = shown_in now id st (lookup id st.sessions)
store_step text (now, StoreCall.opens id source) st = (open_session text now id source st).0
store_step text (now, StoreCall.calls id expected call) st =
    (with_session_lock text now id expected call st).0
store_step text (now, StoreCall.deletes id expected) st = delete_session now id expected st
store_step text (now, StoreCall.closes) st = no_sessions

unfoldable pub store_run : CanonicalText → List (ℕ × StoreCall) → SessionStore → SessionStore
unfolding store_step
store_run text [] st = st
store_run text (c ∷ cs) st = store_run text cs (store_step text c st)
