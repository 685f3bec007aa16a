-- ===== src/Tests/Engines.antt =====
-- A sync engine on Alice's node, and its peer Bob.
use ph_reactor.Base.{String, ◌≡◌, refl, ◌⊎◌, true, false, none, some, [], ◌∷◌, All, arith}
use ph_reactor.Base.Eq.{string_eq, nat_eq}
use ph_reactor.Base.Map.{lookup, insert, Distinct}
use ph_reactor.Base.Sets.{contains}
use ph_reactor.Base.Bytes.{be_bytes, bytes_eq}
use ph_reactor.Json.{Value, str, object}
use ph_reactor.Doc.Clock.{covers}
use ph_reactor.Doc.Data.{model_ref}
use ph_reactor.Action.{Action}
use ph_reactor.Store.Read.{may_peer_read, summary_for, summary, register_peer_key}
use ph_reactor.Store.Feed.{doc_name}
use ph_reactor.P2p.Codec.{
  SyncMsg, Hello, HelloAck, ModelDef, hello_ack, banned, catch_up_request, catch_up_ack,
}
use ph_reactor.P2p.Engine.{Engine, Net, drive_name_by_peer}
use ph_reactor.P2p.Engine.Publish.{gossips, publish_action}
use ph_reactor.P2p.Engine.Publish.Bounds.{PublishedOk, publish_action-PublishedOk}
use ph_reactor.P2p.Engine.Serve.{
  serve_request, serve_hello, serve_catch_up, register_hello, pin_peer, ack_hello, accept_proof,
  check_token,
}
use ph_reactor.P2p.Engine.Serve.Readable.{Readable, serve_request-Readable}
use ph_reactor.P2p.Engine.Serve.Gate.{Greeted, serve_hello-Greeted}
use ph_reactor.P2p.Engine.Sync.{answer, ask_times, ask_times-ends}
use ph_reactor.P2p.Engine.Respond.{on_model_def}
use ph_reactor.P2p.Engine.Respond.Models.{Installed, on_model_def-Installed}
use ph_reactor.Tests.Fixture.{crypto, note, holding, entry_of, from_alice, from_bob}

-- A text is its own address and encoding.
abbrev net : Net
net = record {
  peer_of_addr = λ addr. some addr;
  addr_of_peer = λ peer. some peer;
  random_peer = "nobody";
  connected = λ peer. true;
  hex_encode = λ bytes. "07";
  hex_decode = λ text. some (be_bytes 32 9);
  gossip_fits = λ msg. true;
}

abbrev engine : Engine
engine = record {
  store = holding (from_alice ∷ from_bob ∷ []);
  peer_id = "alice";
  pub_name = "Alice's node";
  blobs = record { files = []; writable = true };
  token = some "sesame";
  drives = [];
  guests = [];
  banned = [];
  auth_failures = [];
  running = true;
  idle_notified = false;
  withheld = 0;
  identity_sent = false;
  pending_actions = [];
  requested_models = [];
  published = [];
  published_order = [];
  next_request = 0;
  requests = [];
  gossip = [];
  dials = [];
  events = [];
}

abbrev ask_note : SyncMsg
ask_note = catch_up_request (record { doc_id = note; have = [] })

reply : SyncMsg
unfolding serve_catch_up
reply = catch_up_ack (serve_catch_up crypto engine "carol" (record { doc_id = note; have = [] })).0

run_serve : (serve_request net crypto 5 engine "carol" ask_note).0 ≡ some reply
unfolding serve_request reply
run_serve = refl

serve_request-Readable_example :
    Readable (serve_request net crypto 5 engine "carol" ask_note).1.store "carol" reply
serve_request-Readable_example =
    serve_request-Readable net crypto 5 engine "carol" ask_note reply run_serve

abbrev greeting : Hello
greeting = record {
  version = 3;
  name = "Carol's node";
  peer_id = "carol";
  pubkey = "09";
  token = some "sesame";
  accept = none;
}

abbrev ack : HelloAck
ack = record {
  version = 3;
  name = "Alice's node";
  docs = record { id = note; name = ""; clock = [] } ∷ [];
  pubkey = some "07";
}

run_hello : (serve_hello net crypto 5 engine "carol" greeting).0 ≡ hello_ack ack
unfolding serve_hello contains accept_proof check_token register_hello drive_name_by_peer pin_peer
    register_peer_key ack_hello summary_for summary may_peer_read doc_name lookup insert be_bytes
    bytes_eq
run_hello = refl

serve_hello-Greeted_example :
    Greeted net crypto 5 engine
      (serve_hello net crypto 5 engine "carol" greeting).1
      "carol"
      greeting
serve_hello-Greeted_example = serve_hello-Greeted net crypto 5 engine "carol" greeting ack run_hello

abbrev guess : String → Hello
guess word = record greeting { token = some word }

abbrev struck : Engine
struck =
    let e1 = (serve_hello net crypto 10 engine "eve" (guess "open")).1 in
    let e2 = (serve_hello net crypto 700 e1 "eve" (guess "knock")).1 in
    (serve_hello net crypto 900 e2 "eve" (guess "open")).1

engine-PublishedOk : PublishedOk 2 engine
engine-PublishedOk = record { bound = omega arith; once = tt; same = λ h. refl }

publish_action-PublishedOk_example :
    let e = publish_action net 2 crypto engine from_alice in
    PublishedOk 2 e
    × (publish_action net 2 crypto e from_alice ≡ e)
    × (gossips engine from_alice ≡ false → e ≡ engine)
publish_action-PublishedOk_example =
    publish_action-PublishedOk net 2 crypto engine from_alice (omega arith) engine-PublishedOk

may_read : may_peer_read engine.store "carol" note ≡ true
unfolding may_peer_read lookup
may_read = refl

held : lookup note engine.store.entries ≡ some (entry_of (from_alice ∷ from_bob ∷ []))
unfolding lookup
held = refl

clocks : All (λ (a : Action). Distinct a.clock) (from_alice ∷ from_bob ∷ [])
unfolding lookup ph_reactor.Action.sign
clocks = ((refl, tt), ((refl, tt), tt))

ask_times-ends_example :
    let now = ask_times 1 crypto engine "carol" note [] in
    ((answer crypto engine "carol" note now).actions ≡ [])
    × ((answer crypto engine "carol" note now).more ≡ false)
    × All (λ (a : Action). covers now a.clock ≡ true) (from_alice ∷ from_bob ∷ [])
ask_times-ends_example =
    ask_times-ends crypto engine "carol" note (entry_of (from_alice ∷ from_bob ∷ [])) 1 [] may_read
      held clocks tt (omega arith)

abbrev todo : Value
todo = object (("name", str "todo") ∷ ("version", str "1") ∷ [])

abbrev received : ModelDef
received = record { ref_ = model_ref "todo" "1"; def_ = some todo }

on_model_def-Installed_example :
    let after = (on_model_def crypto engine "bob" received).store.models in
    (after ≡ engine.store.models) ⊎ Installed crypto received engine.store.models after
on_model_def-Installed_example = on_model_def-Installed crypto engine "bob" received
