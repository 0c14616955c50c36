-- ===== src/Server/Capacity.antt =====
-- The store of correction sessions stays within its limit, and drops no work to make room.
use kbo_workbench.Prelude.{
  All, Bool, Bool-cases, List, Option-cases, [], arith, false, filter, inl, inr, leb, length, not,
  refl, some, suc, ℕ, ◌==◌, ◌∷◌, ◌≡◌, ◌≤◌,
}
use kbo_workbench.Collections.Dict.{Dict, insert, lookup}
use kbo_workbench.Server.Calls.{SessionCall, handle, session_after}
use kbo_workbench.Server.Session.{
  Answer, InternalSession, SessionSource, answered, create, is_empty, refused, shown,
}
use kbo_workbench.Server.Store.{
  SessionStore, StoreCall, add, added, delete_session, evict, make_room, open_session,
  remove_session, store_run, store_step, with_session_lock,
}
use kbo_workbench.Server.StoredFindings.{CanonicalText}

length-filter_le {ℓ} : {D : Type ℓ} (p : D → Bool) (xs : List D) → length (filter p xs) ≤ length xs
length-filter_le p [] = omega arith
length-filter_le p (x ∷ xs) = ground (arith, length-filter_le p xs)

evict-length :
    (now : ℕ) (es : Dict InternalSession) (st : SessionStore)
    → length (evict now es st).sessions ≤ length st.sessions
unfolding evict
evict-length now [] st = omega arith
evict-length now ((id, s) ∷ es) st = ground (
  arith,
  evict-length now es (remove_session id st),
  evict-length now es st,
  length-filter_le (λ e. not (e.0 == id)) st.sessions,
)

length-insert_le {ℓ} :
    {V : Type ℓ} (k : ℕ) (v : V) (d : Dict V) → length (insert k v d) ≤ suc (length d)
length-insert_le k v [] = omega arith
length-insert_le k v ((j, w) ∷ d) = ground (arith, length-insert_le k v d)

length-insert_known {ℓ} :
    {V : Type ℓ} (k : ℕ) (v w : V) (d : Dict V)
    → lookup k d ≡ some w
    → length (insert k v d) ≡ length d
length-insert_known k v w [] h = cc
length-insert_known k v w ((j, x) ∷ d) h = ground (arith, length-insert_known k v w d)

abbrev IsWithin : SessionStore → Type 0
IsWithin st = length st.sessions ≤ 64

add-IsWithin :
    (now : ℕ) (s : InternalSession) (st : SessionStore) → IsWithin st → IsWithin (add now s st).0
unfolding add make_room
add-IsWithin now s st h =
    let kept = evict now st.sessions st in
    ground (arith, evict-length now st.sessions st, length-insert_le s.session_id s kept.sessions)

added-IsWithin :
    (now : ℕ) (st : SessionStore) (a : Answer InternalSession)
    → IsWithin st
    → IsWithin (added now st a).0
added-IsWithin now st (refused e) h = h
added-IsWithin now st (answered s) h = add-IsWithin now (shown s) st h

open_session-IsWithin :
    (text : CanonicalText) (now id : ℕ) (source : SessionSource) (st : SessionStore)
    → IsWithin st
    → IsWithin (open_session text now id source st).0
unfolding open_session make_room
open_session-IsWithin text now id source st h =
    let kept = evict now st.sessions st in
    let small : IsWithin kept = omega (arith, evict-length now st.sessions st) in
    elim (Bool-cases (leb 64 (length kept.sessions))) [
      | inl full ↦ rw (open_session, make_room, full) small
      | inr room ↦
          rw (open_session, make_room, room) (added-IsWithin now kept (create text id source) small)
    ]

with_session_lock-length :
    (text : CanonicalText) (now id expected : ℕ) (call : SessionCall) (st : SessionStore)
    → length (with_session_lock text now id expected call st).0.sessions ≡ length st.sessions
unfolding with_session_lock
with_session_lock-length text now id expected call st = elim (Option-cases (lookup id st.mutexes)) [
  | inl unknown ↦ rw (unknown, with_session_lock) refl
  | inr (b, known) ↦ elim (Option-cases (lookup id st.sessions)) [
    | inl gone ↦ rw (known, with_session_lock, gone) refl
    | inr (s, there) ↦ elim (Bool-cases (s.session_version == expected)) [
      | inl same ↦
          rw (known, with_session_lock, there, same)
            (length-insert_known id (session_after (handle text call s) s) s st.sessions there)
      | inr stale ↦ rw (known, with_session_lock, there, stale) refl
    ]
  ]
]

delete_session-length :
    (now id expected : ℕ) (st : SessionStore)
    → length (delete_session now id expected st).sessions ≤ length st.sessions
unfolding delete_session
delete_session-length now id expected st =
    ground (arith, length-filter_le (λ e. not (e.0 == id)) st.sessions)

store_step-IsWithin :
    (text : CanonicalText) (c : ℕ × StoreCall) (st : SessionStore)
    → IsWithin st
    → IsWithin (store_step text c st)
unfolding store_step
store_step-IsWithin text (now, StoreCall.gets id) st h =
    elim (Option-cases (lookup id st.sessions)) [
      | inl gone ↦ rw gone h
      | inr (s, there) ↦
          rw there (omega (arith, length-insert_known id (shown s) s st.sessions there))
    ]
store_step-IsWithin text (now, StoreCall.opens id source) st h =
    open_session-IsWithin text now id source st h
store_step-IsWithin text (now, StoreCall.calls id expected call) st h =
    omega (arith, with_session_lock-length text now id expected call st)
store_step-IsWithin text (now, StoreCall.deletes id expected) st h =
    omega (arith, delete_session-length now id expected st)
store_step-IsWithin text (now, StoreCall.closes) st h = omega arith

-- Whatever clients call, at whatever times, a store that holds at most 64 sessions never holds more.
pub store_run-IsWithin :
    (text : CanonicalText) (cs : List (ℕ × StoreCall)) (st : SessionStore)
    → length st.sessions ≤ 64
    → length (store_run text cs st).sessions ≤ 64
unfolding store_run
store_run-IsWithin text [] st h = h
store_run-IsWithin text (c ∷ cs) st h =
    store_run-IsWithin text cs (store_step text c st) (store_step-IsWithin text c st h)

lookup-remove_other {ℓ} :
    {V : Type ℓ} (i k : ℕ) (d : Dict V)
    → (i == k) ≡ false
    → lookup k (filter (λ e. not (e.0 == i)) d) ≡ lookup k d
lookup-remove_other i k [] h = refl
lookup-remove_other i k ((j, v) ∷ d) h = ground (arith, lookup-remove_other i k d h)

abbrev HasWorkUnder : ℕ → ℕ × InternalSession → Type 0
HasWorkUnder id e = e.0 ≡ id → is_empty e.1.undo_stack ≡ false

evict-keeps :
    (now id : ℕ) (es : Dict InternalSession) (st : SessionStore)
    → All (HasWorkUnder id) es
    → lookup id (evict now es st).sessions ≡ lookup id st.sessions
unfolding evict
evict-keeps now id [] st h = refl
evict-keeps now id ((i, s) ∷ es) st h = ground (
  arith,
  h.0,
  evict-keeps now id es (remove_session i st) h.1,
  evict-keeps now id es st h.1,
  lookup-remove_other i id st.sessions,
)

-- Making room drops no work: a session that has something to undo is found under its identifier
-- behind it, as it was.
pub make_room-keeps_work :
    (now id : ℕ) (st : SessionStore)
    → All (λ e. e.0 ≡ id → is_empty e.1.undo_stack ≡ false) st.sessions
    → lookup id (make_room now st).0.sessions ≡ lookup id st.sessions
unfolding make_room
make_room-keeps_work now id st h = evict-keeps now id st.sessions st h
