-- ===== src/Scheduler/RequestIds.antt =====
-- The request ids of a node (get_request_id of src/scheduler/comm_helper.hpp).
use spheromone.Prelude.{
  nat_eq, ℕ, zero, suc, ◌+◌, ◌*◌, ◌%◌, ◌^◌, ◌<◌, ◌≡◌, ◌≢◌, refl, sym, ap, ◌∙◌, arith, ◌++◌, ◌==◌,
  drop, drop-append, length, false,
}
use spheromone.Text.{Text, text, to_string, to_string_injective}
use spheromone.Scheduler.State.{Helper}
use spheromone.Scheduler.Helper.{get_request_id}

-- The helper after some requests.
unfoldable pub after_requests : ℕ → Helper → Helper
after_requests zero h = h
after_requests (suc n) h = (get_request_id (after_requests n h)).1

abbrev pub nth_id : ℕ → Helper → Text
nth_id n h = (get_request_id (after_requests n h)).0

-- rid_ is even before a request, so that the number of the request is odd and rid_ never reset.
abbrev number : ℕ → ℕ
number k = (2 * k) % 2 ^ 32 + 1

abbrev id_of : Text → ℕ → Text
id_of ip n = ip ++ text ":" ++ to_string 0 ++ text "_" ++ to_string n

number_lem : (rid k : ℕ) → rid ≡ (2 * k) % 2 ^ 32 → (rid + 1) % 2 ^ 32 ≡ number k
number_lem rid k e = omega arith

is_odd : (k : ℕ) → (number k % 10000 == 0) ≡ false
is_odd k = let odd : number k % 10000 ≢ 0 = omega arith in ground arith

next_id :
    (h : Helper) (k : ℕ)
    → h.rid ≡ (2 * k) % 2 ^ 32
    → ((get_request_id h).0 ≡ id_of h.ip (number k))
      × ((get_request_id h).1.rid ≡ (2 * suc k) % 2 ^ 32)
      × ((get_request_id h).1.ip ≡ h.ip)
unfolding get_request_id
next_id h k e = rw (number_lem h.rid k e, is_odd k) (refl, omega arith, refl)

nth_state :
    (n : ℕ) (h : Helper)
    → h.rid ≡ 0
    → ((after_requests n h).rid ≡ (2 * n) % 2 ^ 32) × ((after_requests n h).ip ≡ h.ip)
unfolding after_requests
nth_state zero h e = (omega arith, refl)
nth_state (suc n) h e =
    let (rid, ip) = nth_state n h e in
    let (_, rid', ip') = next_id (after_requests n h) n rid in (rid', ip' ∙ ip)

nth_id_lem : (n : ℕ) (h : Helper) → h.rid ≡ 0 → nth_id n h ≡ id_of h.ip (number n)
nth_id_lem n h e =
    let (rid, ip) = nth_state n h e in
    (next_id (after_requests n h) n rid).0 ∙ ap (λ a. id_of a (number n)) ip

append-cancel : (xs ys zs : Text) → xs ++ ys ≡ xs ++ zs → ys ≡ zs
append-cancel xs ys zs p = sym (drop-append xs ys) ∙ ap (drop (length xs)) p ∙ drop-append xs zs

-- The ids of any two of the first 2 ^ 31 requests of a node, whose counter starts at 0, are
-- different.
pub request_ids_are_unique :
    (h : Helper) (m n : ℕ) → h.rid ≡ 0 → m < n → n < 2 ^ 31 → nth_id m h ≢ nth_id n h
request_ids_are_unique h m n e l b p =
    let prefix = h.ip ++ text ":" ++ to_string 0 ++ text "_" in
    let same : id_of h.ip (number m) ≡ id_of h.ip (number n) =
      sym (nth_id_lem m h e) ∙ p ∙ nth_id_lem n h e in
    let number_same =
      to_string_injective (number m) (number n)
        (append-cancel prefix (to_string (number m)) (to_string (number n)) same) in
    absurd (omega arith)
