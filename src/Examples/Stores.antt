-- ===== src/Examples/Stores.antt =====
-- The connection pool and the ticket store.
use tunnelfetch.Prelude.{ℕ, ◌+◌, ◌≡◌, refl, true, some, none, List, [], ◌∷◌, All, count}
use tunnelfetch.Prelude.Dict.{get_list, values}
use tunnelfetch.Errors.{ok}
use tunnelfetch.Pool.{
  Op, taking, releasing, new_pool, run, release, retain, evict, take, after_take, all_handed,
  all_offered,
}
use tunnelfetch.Pool.Keeps.{IsBounded, run-IsBounded}
use tunnelfetch.Pool.Ledger.{run_conserves}
use tunnelfetch.Pool.View.{take-release}
use Prim.Native.String.{String}
use tunnelfetch.Tickets.{
  Number, integer, HashName, sha_256, Captured, StoredTicket, TicketStore, new_store, Offer,
  putting, clearing, kept, integers, hash_length, accepted,
}
use tunnelfetch.Prelude.Int.{pos}
use tunnelfetch.Tickets
use tunnelfetch.Tickets.Isolation.{Fresh, Sane, Puts, Stores, Offers, run-Offers, run-Sane}

-- Two connections come in under a key with room for one, and one of them is asked for again.
abbrev calls : List Op
calls = releasing "a" 1 true ∷ releasing "a" 2 true ∷ taking "a" ∷ []

run-IsBounded_example : IsBounded (run calls (new_pool 1 4))
run-IsBounded_example = run-IsBounded calls 1 4

run_conserves_example :
    count 1 (values (run calls (new_pool 1 4)).idle)
      + count 1 (run calls (new_pool 1 4)).shut
      + count 1 (all_handed calls (new_pool 1 4))
    ≡ count 1 (all_offered calls)
run_conserves_example = run_conserves calls 1 4 1

retained : (release "a" 7 true (run [] (new_pool 2 4))).0 ≡ true
unfolding release retain evict run get_list
retained = refl

take-release_example :
    (take "a" (release "a" 7 true (run [] (new_pool 2 4))).1
      ≡ ok (some 7, after_take "a" (release "a" 7 true (run [] (new_pool 2 4))).1))
    × (get_list "b" (after_take "a" (release "a" 7 true (run [] (new_pool 2 4))).1).idle
        ≡ get_list "b" (run [] (new_pool 2 4)).idle)
take-release_example =
    take-release "a" "b" 7 true (run [] (new_pool 2 4)) (run-IsBounded [] 2 4) refl retained

-- A ticket for a day, put under one key, and asked for under two.
abbrev captured : Captured
captured = record {
  identity = 1 ∷ 2 ∷ [];
  psk = 3 ∷ [];
  hash = sha_256;
  lifetime_sec = integer (pos 86400);
  age_add = integer (pos 5);
  peer = none;
  cipher_suite = 4865;
}

abbrev clock : ℕ → ℕ
clock reading = 5000

abbrev ticket_calls : List Tickets.Op
ticket_calls = putting "a" captured 1000 ∷ Tickets.taking "b" clock ∷ Tickets.taking "a" clock ∷ []

abbrev UnderA : String → StoredTicket → Type 0
UnderA key t = key ≡ "a"

ticket_calls-UnderA : All (Puts UnderA) ticket_calls
unfolding Puts Stores accepted hash_length integers kept
ticket_calls-UnderA = (refl, (tt, (tt, tt)))

run-Offers_example : All (Offers UnderA) (Tickets.run ticket_calls (new_store 2)).0
run-Offers_example = run-Offers UnderA ticket_calls 2 ticket_calls-UnderA

run-Sane_example :
    All
      (λ (o : Offer). Sane o.ticket × Fresh o.ticket o.found_at)
      (Tickets.run ticket_calls (new_store 2)).0
run-Sane_example = run-Sane ticket_calls 2
