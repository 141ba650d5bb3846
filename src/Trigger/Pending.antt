-- ===== src/Trigger/Pending.antt =====
-- Re-execution (common/include/trigger.hpp): the calls that a by-set trigger still waits for.
use spheromone.Prelude.{
  ◌≡◌, refl, ap, ◌≢◌, false, [], ◌∷◌, ◌++◌, arith, ◌==◌, ==_cases, length, length-append, All, inl,
  inr,
}
use spheromone.Text.{Text, text_eq}
use spheromone.HashMap
use spheromone.HashMap.{find-put, find-erase}
use spheromone.HashSet.{HashSet}
use spheromone.Trigger.Types.{Trigger, BySetState, StatusCache, gathered}
use spheromone.Trigger.Rerun.{set_reruns, kind_clear, action_for_rerun, clear}

-- No key of the set is empty.
abbrev pub HasNames : HashSet Text → Type 0
HasNames = All λ k. k ≢ []

append-ne : (k s : Text) → k ≢ [] → (s == k ++ s) ≡ false
append-ne [] s n = absurd (n refl)
append-ne (c ∷ k) s n = elim (==_cases s (c ∷ k ++ s)) [
  | inl p ↦ absurd (omega (arith, ap length p.1, length-append (c ∷ k) s))
  | inr p ↦ p.0
]

set_reruns-erase :
    (cache : StatusCache) (keys : HashSet Text) (session : Text)
    → HasNames keys
    → set_reruns (HashMap.erase session cache) keys session ≡ set_reruns cache keys session
unfolding set_reruns
set_reruns-erase cache [] session h = refl
set_reruns-erase cache (k ∷ keys) session h =
    rw
      (
        find-erase session (k ++ session) cache,
        append-ne k session h.0,
        set_reruns-erase cache keys session h.1,
      )
      refl

-- Clearing a by-set trigger whose keys have names for a session does not drop the session's pending
-- calls: it erases the session's own name from the cache, where the entries are under the key
-- followed by the session.
pub clear_keeps_reruns :
    (t : Trigger) (s : BySetState) (session : Text)
    → t.kind ≡ gathered s
    → HasNames s.key_set
    → action_for_rerun (clear t session) session ≡ action_for_rerun t session
unfolding action_for_rerun clear
clear_keeps_reruns t s session e h =
    rw (e, kind_clear) (ground (arith, set_reruns-erase s.set_cache s.key_set session h))
