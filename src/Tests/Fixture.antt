-- ===== src/Tests/Fixture.antt =====
-- Two nodes with pinned keys, and their actions on one document.
use ph_reactor.Base.{ℕ, refl, String, true, false, none, List, [], ◌∷◌, ◌++◌}
use ph_reactor.Base.Bytes.{bytes_eq, bytes_eq_iff, from_be_bytes}
use ph_reactor.Json.{Value, str, object, array}
use ph_reactor.Doc.Clock.{VecClock}
use ph_reactor.Doc.Data.{DocId, Doc, Field, model_ref}
use ph_reactor.Action.{Action, Extern, Lawful, sign}
use ph_reactor.Model.Interface.{QuorumSpec}
use ph_reactor.Model.Open.{open_model}
use ph_reactor.Store.State.{Entry, Inner, Disk}
use ph_reactor.Tests.Encoding.{json_bytes, json_bytes-inj}

-- A signature is the key followed by the message.
abbrev pub crypto : Extern
crypto = record {
  valid_key = λ key. true;
  verify_strict = λ key message sig. bytes_eq sig (key ++ message);
  public = λ key. key;
  sign = λ key message. key ++ message;
  sha256 = from_be_bytes;
  to_vec = json_bytes;
}

pub crypto-Lawful : Lawful crypto
crypto-Lawful = record {
  public_valid = λ key. refl;
  verify_sign = λ key message. (bytes_eq_iff (key ++ message) (key ++ message)).1 refl;
  to_vec-inj = json_bytes-inj;
}

abbrev pub alice_key : List ℕ
alice_key = 7 ∷ []

abbrev pub bob_key : List ℕ
bob_key = 9 ∷ []

abbrev pub note : DocId
note = 3

-- A `set` of the title.
abbrev pub set_title : String → ℕ → VecClock → String → Action
set_title origin ts clock title = record {
  doc_id = note;
  model = model_ref "open" "1";
  kind = "set";
  payload = object (("field", str "title") ∷ ("value", str title) ∷ []);
  ts = ts;
  clock = clock;
  origin = origin;
  cosig = [];
  prev_hash = none;
  space = none;
  sig = [];
}

abbrev pub from_alice : Action
from_alice = sign crypto (set_title "alice" 5 (("alice", 1) ∷ []) "draft") alice_key

abbrev pub from_bob : Action
from_bob = sign crypto (set_title "bob" 6 (("bob", 1) ∷ []) "final") bob_key

abbrev pub disk : Disk
disk = record { snaps = []; alogs = []; index = none; writable = true }

-- Alice's node, which knows both keys and the model `open@1`.
abbrev pub node : Inner
node = record {
  disk = disk;
  key = alice_key;
  origin = "alice";
  known_keys = ("alice", alice_key) ∷ ("bob", bob_key) ∷ [];
  entries = [];
  names = [];
  ts_hint = 4;
  outbound = [];
  outbound_feed = none;
  quarantined = 0;
  models = (("open", "1"), open_model) ∷ [];
  changes = [];
}

-- A second write of Bob's, with an earlier timestamp than Alice's.
abbrev pub late_bob : Action
late_bob = sign crypto (set_title "bob" 3 (("bob", 1) ∷ []) "early") bob_key

-- A node that nobody knows.
abbrev pub from_eve : Action
from_eve = sign crypto (set_title "eve" 7 (("eve", 1) ∷ []) "mine") (8 ∷ [])

abbrev pub empty_doc : Doc
empty_doc = record { id = note; name = ""; fields = [] }

abbrev pub entry_of : List Action → Entry
entry_of log = record {
  doc = empty_doc;
  clock = [];
  deleted = false;
  log = log;
  model = model_ref "open" "1";
  space = none;
}

abbrev pub holding : List Action → Inner
holding log = record node { entries = (note, entry_of log) ∷ [] }

abbrev pub live_field : Value → Field
live_field v = record { value = v; version = []; ts = 1; origin = "alice"; deleted = false }

-- A group of Alice and Bob.
abbrev pub team : Entry
team = record (entry_of []) {
  doc = record {
    id = 8;
    name = "team";
    fields = ("members", live_field (array (str "alice" ∷ str "bob" ∷ []))) ∷ [];
  };
}

abbrev pub team_node : Inner
team_node = record node { entries = (8, team) ∷ []; names = ("team", 8) ∷ [] }

abbrev pub both : QuorumSpec
both = record { group = "team"; min = 2; field = "members" }

abbrev pub endorsed : Action
endorsed = record from_alice { cosig = record { origin = "bob"; sig = [] } ∷ [] }
