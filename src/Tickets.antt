-- ===== src/Tickets.antt =====
-- src/tls/tickets.js. A key's tickets stand newest first here, the array of the source from its end.
pub mod Isolation
use tunnelfetch.Prelude.{ℕ, zero, suc, ◌+◌, ◌-◌, ◌*◌, ◌%◌, ◌^◌, min, Bool, true, false, ◌||◌}
use tunnelfetch.Prelude.{
  Option, none, some, List, [], ◌∷◌, ltb, leb, ◌==◌, if◌then◌else◌, length, take, ◌++◌,
}
use tunnelfetch.Prelude.Int.{ℤ, pos, negsuc}
use tunnelfetch.Prelude.Dict.{get_list, set_list, delete, total}
use tunnelfetch.Bytes.{Bytes}
use tunnelfetch.Errors.{
  Result, ok, err, Failure, tls_error, tls_ticket, config_invalid, ◌>>=◌, ◌>>◌, require,
}
use Prim.Native.String.{String}

abbrev pub max_lifetime_sec : ℕ
max_lifetime_sec = 604800

-- What a number of the source can be: an integer, or another.
pub data Number : Type 0 where
  integer : ℤ → Number
  no_integer : Number

-- A hash's name, of which `hashLength` knows two.
pub data HashName : Type 0 where
  sha_256 sha_384 : HashName
  unknown : String → HashName

unfoldable pub hash_length : HashName → Result ℕ
hash_length sha_256 = ok 32
hash_length sha_384 = ok 48
hash_length (unknown name) = err (tls_error config_invalid)

-- CapturedTicket. `peer` names the object that is carried along.
pub record Captured : Type 0 where
  pub identity : Bytes
  pub psk : Bytes
  pub hash : HashName
  pub lifetime_sec : Number
  pub age_add : Number
  pub peer : Option ℕ
  pub cipher_suite : ℕ

pub record StoredTicket : Type 0 where
  pub identity : Bytes
  pub psk : Bytes
  pub hash : HashName
  pub age_add : ℤ
  pub lifetime_ms : ℕ
  pub received_at_ms : ℕ
  pub peer : Option ℕ
  pub cipher_suite : ℕ

pub record TicketStore : Type 0 where
  pub by_key : List (String × List StoredTicket)
  pub max_per_key : ℕ

abbrev pub new_store : ℕ → TicketStore
new_store max_per_key = record { by_key = []; max_per_key = max_per_key }

pub size : TicketStore → ℕ
size s = total s.by_key

-- The ticket that is kept of a capture with integers, unless its lifetime is zero or less.
unfoldable pub kept : Captured → ℤ → ℤ → ℕ → Option StoredTicket
kept c (pos zero) age_add now = none
kept c (negsuc n) age_add now = none
kept c (pos (suc n)) age_add now = some record {
  identity = c.identity;
  psk = c.psk;
  hash = c.hash;
  age_add = age_add;
  lifetime_ms = min (suc n) max_lifetime_sec * 1000;
  received_at_ms = now;
  peer = c.peer;
  cipher_suite = c.cipher_suite;
}

unfoldable pub integers : Captured → Number → Number → ℕ → Result (Option StoredTicket)
integers c (integer lifetime) (integer age_add) now = ok (kept c lifetime age_add now)
integers c lifetime age_add now = err (tls_error tls_ticket)

-- The checks of `put`.
unfoldable pub accepted : Captured → ℕ → Result (Option StoredTicket)
accepted c now = hash_length c.hash >>= λ len.
    if length c.identity == 0 || length c.psk == 0
    then err (tls_error tls_ticket)
    else integers c c.lifetime_sec c.age_add now

pub store_ticket : String → StoredTicket → TicketStore → TicketStore
store_ticket key t s = record s {
  by_key = set_list key (take s.max_per_key (t ∷ get_list key s.by_key)) s.by_key;
}

pub put_accepted : String → Option StoredTicket → TicketStore → Bool × TicketStore
put_accepted key none s = (false, s)
put_accepted key (some t) s = (true, store_ticket key t s)

pub put : String → Captured → ℕ → TicketStore → Result (Bool × TicketStore)
put key c now s = accepted c now >>= λ t. ok (put_accepted key t s)

-- The loop of `take`, which reads the clock for each ticket that it pops. An age may be negative, so
-- the lifetime stands on the other side.
pub take_fresh : (ℕ → ℕ) → ℕ → List StoredTicket → Option (StoredTicket × ℕ) × List StoredTicket
take_fresh clock i [] = (none, [])
take_fresh clock i (t ∷ ts) =
    let rest = take_fresh clock (i + 1) ts in
    if leb (t.received_at_ms + t.lifetime_ms) (clock i) then rest else (some (t, clock i), ts)

-- A list that is left empty goes with its key.
pub put_back : String → List StoredTicket → TicketStore → TicketStore
put_back key [] s = record s { by_key = delete key s.by_key }
put_back key (t ∷ ts) s = record s { by_key = set_list key (t ∷ ts) s.by_key }

-- The ticket that is offered with the time at which it was found fresh. Where the key is absent,
-- deleting it changes nothing.
pub take_ticket : String → (ℕ → ℕ) → TicketStore → Option (StoredTicket × ℕ) × TicketStore
take_ticket key clock s =
    let r = take_fresh clock 0 (get_list key s.by_key) in (r.0, put_back key r.1 s)

pub clear : TicketStore → TicketStore
clear s = record s { by_key = [] }

-- `%` has the sign of its left side.
pub obfuscated_ticket_age : StoredTicket → ℕ → ℤ
obfuscated_ticket_age t now =
    let ms = now - t.received_at_ms in
    elim t.age_add [
      | pos a ↦ pos ((ms + a) % 2 ^ 32)
      | negsuc n ↦
          if ltb n ms
          then pos ((ms - (n + 1)) % 2 ^ 32)
          else if (n + 1 - ms) % 2 ^ 32 == 0
          then pos 0
          else negsuc ((n + 1 - ms) % 2 ^ 32 - 1)
    ]

-- The operations, and a run of them with what it offers under which key.
pub data Op : Type 0 where
  putting : String → Captured → ℕ → Op
  taking : String → (ℕ → ℕ) → Op
  clearing : Op

pub record Offer : Type 0 where
  pub key : String
  pub ticket : StoredTicket
  pub found_at : ℕ

pub offers_of : String → Option (StoredTicket × ℕ) → List Offer
offers_of key none = []
offers_of key (some (t, at)) = record { key = key; ticket = t; found_at = at } ∷ []

-- A `put` that throws leaves the store as it is.
pub after_put : Result (Bool × TicketStore) → TicketStore → TicketStore
after_put (ok r) s = r.1
after_put (err e) s = s

pub apply : Op → TicketStore → List Offer × TicketStore
apply (putting key c now) s = ([], after_put (put key c now s) s)
apply (taking key clock) s =
    (offers_of key (take_ticket key clock s).0, (take_ticket key clock s).1)
apply clearing s = ([], clear s)

pub run : List Op → TicketStore → List Offer × TicketStore
run [] s = ([], s)
run (o ∷ os) s = ((apply o s).0 ++ (run os (apply o s).1).0, (run os (apply o s).1).1)
