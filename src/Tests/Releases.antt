-- ===== src/Tests/Releases.antt =====
-- Versions of releases.
use ph_reactor.Base.{◌≡◌, ◌↔◌, refl, true, false, some, none, [], ◌∷◌, All, String, List}
use ph_reactor.Base.Chars.{
  codes, trim, drop_while, drop_end, is_whitespace, split, parse_u64, parse_digits,
}
use ph_reactor.Base.Bytes.{be_bytes}
use ph_reactor.Base.Eq.{string_eq}
use ph_reactor.Tests.Fixture.{crypto}
use ph_reactor.Update.Candidate.{
  Offer, Chosen, is_ok, is_willing, is_better, best_of, best_candidate, best_candidate-best,
}
use ph_reactor.Update.{
  ReleaseExtern, verify_release, runs_on, Release, equal, is_newer_than, compare, parse_version,
  parse_parts, compare_parts, resize, vec_cmp,
}
use ph_reactor.Update.Versions.{Supersedes, newer_iff}

abbrev release : Release
release = record {
  version = "1.10.0";
  platform = "x86_64-unknown-linux-musl";
  notes = "";
  binary = record { hash = 0; size = 0; chunks = [] };
  publisher_key = "";
  sig = "";
}

newer_iff_example : (is_newer_than release "v1.9" ≡ true) ↔ Supersedes release.version "v1.9"
newer_iff_example = newer_iff release "v1.9"

run_newer : is_newer_than release " v1.9" ≡ true
unfolding is_newer_than compare parse_version parse_parts compare_parts resize vec_cmp codes trim
    drop_while drop_end is_whitespace split parse_u64 parse_digits
run_newer = refl

run_equal : compare "1.2" "1.2.0" ≡ some equal
unfolding compare parse_version parse_parts compare_parts resize vec_cmp codes trim drop_while
    drop_end is_whitespace split parse_u64 parse_digits
run_equal = refl

run_refused : compare "1.2-rc1" "1.1" ≡ none
unfolding compare parse_version parse_parts codes trim drop_while drop_end is_whitespace split
    parse_u64 parse_digits
run_refused = refl

-- Every text is a key or a signature of the right size, and all signatures verify.
abbrev lenient : ReleaseExtern
lenient = record {
  hex_encode = λ bytes. "";
  hex_decode = λ text. elim (ph_reactor.Base.Eq.◌==◌ text "key") [
    | true ↦ some (be_bytes 32 9)
    | _ ↦ some (be_bytes 64 1)
  ];
  release_to_vec = λ r. [];
  verify = λ key message sig. true;
}

abbrev of_version : String → Release
of_version version = record release { version = version; publisher_key = "key" }

-- A newer release of a stranger, an older one, and two that could be run.
abbrev offered : List Offer
offered =
    ("a", (of_version "9.0", false))
    ∷ ("b", (of_version "0.9", true))
    ∷ ("c", (of_version "1.2", true))
    ∷ ("d", (of_version "1.10", true))
    ∷ []

run_best :
    best_candidate crypto lenient "1.0" "x86_64-unknown-linux-musl" offered
    ≡ some ("d", of_version "1.10")
unfolding best_candidate best_of is_willing is_better is_ok verify_release runs_on is_newer_than
    compare parse_version parse_parts compare_parts resize vec_cmp codes trim drop_while drop_end
    is_whitespace split parse_u64 parse_digits be_bytes
run_best = refl

best_candidate-best_example :
    Chosen crypto lenient "1.0" "x86_64-unknown-linux-musl" offered "d" (of_version "1.10")
    × All
        (λ (o : Offer).
          is_willing crypto lenient "1.0" "x86_64-unknown-linux-musl" o ≡ true
          → is_newer_than o.1.0 "1.10" ≡ false)
        offered
best_candidate-best_example =
    best_candidate-best crypto lenient "1.0" "x86_64-unknown-linux-musl" offered "d"
      (of_version "1.10") run_best
