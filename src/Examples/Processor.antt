-- ===== src/Examples/Processor.antt =====
-- The processor at concrete inputs: a record whose write fails once, and one of another type.
use go_pulse.Base.{ℕ, zero, suc, ◌≤◌, ◌≡◌, refl, true, false, none, some, List, [], ◌∷◌, ok, err}
use go_pulse.Consumer.Processor.{
  Retry, prepared, CommitTurn, WriteTurn, stored, failed, handled, commit, Processor, body_of,
  handle,
}
use go_pulse.Consumer.Commits.{Paced}
use go_pulse.Consumer.Delivered.{commit-Paced, handle_delivers}

abbrev decode_one : List ℕ → Processor ℕ (λ m. m) (λ m. 0)
decode_one body = record {
  decode = λ key value. elim value [ [] ↦ err none | v ∷ _ ↦ ok v ];
  expected_type = some 5;
  transformer = λ m. ok body;
  targets = none;
}

abbrev delays : Retry
delays = record { retry_min = 0; retry_max = 1000000 }

-- The broker accepts the second call.
abbrev second_time : ℕ → CommitTurn
second_time n = record {
  alive_before = true;
  commits = elim n [ zero ↦ false | suc _ ↦ true ];
  alive_after = true;
  acquired = true;
  slept = true;
}

abbrev first_write : WriteTurn
first_write = record {
  valid_before = true;
  answer = failed;
  valid_after = true;
  context_done = false;
  acquired = true;
  slept = true;
}

abbrev second_write : WriteTurn
second_write = record first_write { answer = stored }

commit-Paced_example :
    ((commit (prepared delays) second_time).commits ≤ 3)
    × Paced (prepared delays) (commit (prepared delays) second_time).delays
commit-Paced_example = commit-Paced delays second_time

handle_delivers_example :
    let d =
      handle ℕ
        (λ m. m)
        (λ m. 0)
        (decode_one (7 ∷ []))
        delays
        second_time
        (first_write ∷ second_write ∷ [])
        []
        (5 ∷ []) in
    (d.ended ≡ handled) × (d.stored ≡ true) × (d.rejected ≡ none) × (d.writes ≡ 2)
unfolding body_of
handle_delivers_example =
    handle_delivers ℕ (λ m. m) (λ m. 0) (decode_one (7 ∷ [])) delays second_time (first_write ∷ [])
      [] second_write [] (5 ∷ []) (7 ∷ []) refl ((refl, refl, refl, refl, refl), tt)
      (refl, refl, refl) ((λ n. (refl, refl, refl, refl)), refl)
