-- ===== src/Tests.antt =====
-- Instances of the interfaces and small databases, for the runs and the examples below.
mod Numbers
mod States
mod Backups
mod Members
mod Requests
mod Accounts
mod Chains
mod Rooms
use matrix_server.Base.{ℕ, ◌≡◌, refl, Bool, true, false, Option, none, some, List, [], ◌∷◌, ite}
use matrix_server.Base.Bytes.{Bytes, dec_bytes}
use matrix_server.Lru.{LruCache}
use matrix_server.Json.{Json, RawJson, option_of}
use matrix_server.StateCache.{Env}

pub never : {A : Type 0} {w : A} {P : Type 0} → none ≡ some w → P
never h = cc

-- A cache that forgets everything at once.
abbrev pub forgetful : (K V : Type 0) → LruCache K V (Unit {0})
forgetful K V = record {
  get_mut = λ c k. (none, c);
  insert = λ c k v. c;
  hit_of_insert = λ c k j v w h. never h;
  hit_of_get_mut = λ c k j w h. h;
}

abbrev is_null : Bytes → Bool
is_null b = ite (dec_bytes b (b'n' ∷ b'u' ∷ b'l' ∷ b'l' ∷ [])) true false

-- Raw JSON whose text is kept as it is.
abbrev pub raw : RawJson Bytes
raw = record {
  to_vec = λ r. r;
  json_text = λ r. r;
  from_slice = λ b. some b;
  from_slice_option = λ b. option_of (is_null b) (some b);
  is_null = is_null;
  from_slice-to_vec = λ r. refl;
  from_slice-json_text = λ r. refl;
  from_slice_option_lem = λ b. refl;
}

abbrev pub json : Json Bytes
json = record {
  to_vec = λ r. r;
  from_slice = λ b. some b;
  from_slice_option = λ b. option_of (is_null b) (some b);
  is_null = is_null;
  from_slice-to_vec = λ r. refl;
  from_slice_option_lem = λ b. refl;
}

-- Two servers told apart by the last byte of a user id; no user is deactivated.
abbrev pub env : Env
env = record {
  is_utf8 = λ b. true;
  is_user_id = λ b. true;
  is_room_id = λ b. true;
  is_server_name = λ b. true;
  server_of = λ b. [];
  our_server = [];
  is_deactivated = λ b. false;
}
