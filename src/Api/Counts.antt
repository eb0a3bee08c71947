-- ===== src/Api/Counts.antt =====
-- What a bulk request answers: every id has its result, and the counts add up.
use nms.Prelude.{
  ℕ, suc, zero, ◌+◌, ◌≤◌, ◌≡◌, refl, subst, Bool, true, false, ◌||◌, List, [], ◌∷◌, String, Option,
  none, some, ◌==◌, ℤ, pos, negsuc, int_eq, length, any, All, All-map, Bool-cases, inl, inr, arith,
}
use nms.Prelude.Result.{Result, ok, err}
use nms.Incident.Tables.{Incident}
use nms.Incident.Write.{transition_incident_status}
use nms.Api.Incidents.{Api, call, changed_by_user, Reply, replied}
use nms.Api.Bulk.{
  BulkResult, not_positive, not_moved, not_found, is_moved, Bulk, no_bulk, add_failed, add_answer,
  bulk_positive, bulk_one, bulk_rounds, BulkBody, bulk_reply, bulk_transition_incidents,
}

-- The id that a result is about.
abbrev pub id_of : BulkResult → ℤ
id_of (not_positive id) = id
id_of (not_moved id e) = pos id
id_of (not_found id) = pos id
id_of (is_moved id item) = pos id

abbrev pub is_answered : ℤ → List BulkResult → Bool
is_answered id results = any (λ r. int_eq (id_of r) id) results

-- What holds at every round of the loop, after at most `n` ids.
pub record IsCounted (n : ℕ) (b : Bulk) : Type 0 where
  pub added_up : length b.updated_items + b.failed_count ≡ length b.results
  pub at_most : length b.results ≤ n
  pub seen_answered : All (λ x. is_answered (pos x) b.results ≡ true) b.seen

int_eq_self : (z : ℤ) → int_eq z z ≡ true
int_eq_self (pos n) = ground arith
int_eq_self (negsuc n) = ground arith

or_right : (a b : Bool) → b ≡ true → a || b ≡ true
or_right true b h = refl
or_right false b h = h

or_left : (a b : Bool) → a ≡ true → a || b ≡ true
or_left true b h = refl
or_left false b h = cc

more_answered :
    (r : BulkResult) (rs : List BulkResult) (xs : List ℕ)
    → All (λ x. is_answered (pos x) rs ≡ true) xs
    → All (λ x. is_answered (pos x) (r ∷ rs) ≡ true) xs
more_answered r rs xs h =
    All-map (λ x. is_answered (pos x) rs ≡ true) (λ x. is_answered (pos x) (r ∷ rs) ≡ true) xs
      (λ x e. or_right (int_eq (id_of r) (pos x)) _ e) h

-- A round in which the results grow by one of `id`, or stay.
pub record IsRound (n : ℕ) (id : ℤ) (before after : Bulk) : Type 0 where
  pub counted : IsCounted (n + 1) after
  pub answered : is_answered id after.results ≡ true
  pub kept : (z : ℤ) → is_answered z before.results ≡ true → is_answered z after.results ≡ true

add_failed-IsRound :
    (n : ℕ) (id : ℤ) (r : BulkResult) (b : Bulk)
    → id_of r ≡ id
    → IsCounted n b
    → IsRound n id b (add_failed r b)
add_failed-IsRound n id r b e h = record {
  counted = record {
    added_up = omega (arith, h.added_up);
    at_most = omega (arith, h.at_most);
    seen_answered = more_answered r b.results b.seen h.seen_answered;
  };
  answered = rw e (or_left (int_eq id id) _ (int_eq_self id));
  kept = λ z e. or_right (int_eq (id_of r) z) _ e;
}

-- A new result of an id not seen before.
seen_now :
    (n id : ℕ) (r : BulkResult) (items : List Incident) (failed : ℕ) (b : Bulk)
    → id_of r ≡ pos id
    → length items + failed ≡ length b.results + 1
    → IsCounted n b
    → IsRound n (pos id) b (record b {
      results = r ∷ b.results;
      updated_items = items;
      failed_count = failed;
      seen = id ∷ b.seen;
    })
seen_now n id r items failed b e sum h =
    let new : is_answered (pos id) (r ∷ b.results) ≡ true =
      rw e (or_left (int_eq (pos id) (pos id)) _ (int_eq_self (pos id))) in
    record {
      counted = record {
        added_up = omega (arith, sum);
        at_most = omega (arith, h.at_most);
        seen_answered = (new, more_answered r b.results b.seen h.seen_answered);
      };
      answered = new;
      kept = λ z e. or_right (int_eq (id_of r) z) _ e;
    }

add_answer-IsRound :
    (n id : ℕ) (by comment : String) (b : Bulk) (answer : Result (Option Incident) × Api)
    → IsCounted n b
    → IsRound n (pos id) b (add_answer id by comment (record b { seen = id ∷ b.seen }) answer).0
unfolding add_answer
add_answer-IsRound n id by comment b (err e, a) h =
    seen_now n id (not_moved id e) b.updated_items (b.failed_count + 1) b refl
      (omega (arith, h.added_up)) h
add_answer-IsRound n id by comment b (ok none, a) h =
    seen_now n id (not_found id) b.updated_items (b.failed_count + 1) b refl
      (omega (arith, h.added_up)) h
add_answer-IsRound n id by comment b (ok (some item), a) h =
    seen_now n id (is_moved id item) (item ∷ b.updated_items) b.failed_count b refl
      (omega (arith, h.added_up)) h

-- An id that was seen before has its result.
find_seen :
    (id : ℕ) (results : List BulkResult) (xs : List ℕ)
    → All (λ x. is_answered (pos x) results ≡ true) xs
    → any (λ x. x == id) xs ≡ true
    → is_answered (pos id) results ≡ true
find_seen id results [] h e = cc
find_seen id results (x ∷ xs) h e = elim (Bool-cases (x == id)) [
  | inl hit ↦
      let same : x ≡ id = ground arith in subst (λ y. is_answered (pos y) results ≡ true) same h.0
  | inr miss ↦ find_seen id results xs h.1 (rw miss at e)
]

bulk_one-IsRound :
    (n : ℕ) (id : ℤ) (status by comment : String) (b : Bulk) (a : Api)
    → IsCounted n b
    → IsRound n id b (bulk_one id status by comment (b, a)).0
unfolding bulk_one bulk_positive
bulk_one-IsRound n (negsuc m) status by comment b a h =
    add_failed-IsRound n (negsuc m) (not_positive (negsuc m)) b refl h
bulk_one-IsRound n (pos zero) status by comment b a h =
    add_failed-IsRound n (pos zero) (not_positive (pos zero)) b refl h
bulk_one-IsRound n (pos (suc m)) status by comment b a h =
    elim (Bool-cases (any (λ x. x == suc m) b.seen)) [
      | inl hit ↦ rw hit (record {
        counted = record {
          added_up = h.added_up;
          at_most = omega (arith, h.at_most);
          seen_answered = h.seen_answered;
        };
        answered = find_seen (suc m) b.results b.seen h.seen_answered hit;
        kept = λ z e. e;
      })
      | inr miss ↦ rw miss (
          add_answer-IsRound n (suc m) by comment b
            (call (transition_incident_status (suc m) status by comment) a) h)
    ]

-- After the loop.
record IsDone (n : ℕ) (ids : List ℤ) (before after : Bulk) : Type 0 where
  counted : IsCounted n after
  answered : All (λ id. is_answered id after.results ≡ true) ids
  kept : (z : ℤ) → is_answered z before.results ≡ true → is_answered z after.results ≡ true

bulk_rounds-IsDone :
    (n : ℕ) (ids : List ℤ) (status by comment : String) (b : Bulk) (a : Api)
    → IsCounted n b
    → IsDone (n + length ids) ids b (bulk_rounds ids status by comment (b, a)).0
unfolding bulk_rounds
bulk_rounds-IsDone n [] status by comment b a h = record {
  counted = record {
    added_up = h.added_up;
    at_most = omega (arith, h.at_most);
    seen_answered = h.seen_answered;
  };
  answered = tt;
  kept = λ z e. e;
}
bulk_rounds-IsDone n (id ∷ ids) status by comment b a h =
    let round = bulk_one-IsRound n id status by comment b a h in
    let next = bulk_one id status by comment (b, a) in
    let rest = bulk_rounds-IsDone (n + 1) ids status by comment next.0 next.1 round.counted in
    record {
      counted = record {
        added_up = rest.counted.added_up;
        at_most = omega (arith, rest.counted.at_most);
        seen_answered = rest.counted.seen_answered;
      };
      answered = (rest.kept id round.answered, rest.answered);
      kept = λ z e. rest.kept z (round.kept z e);
    }

-- What a bulk request answers: the numbers of the incidents moved and of the failures add up to the
-- number of results, there are no more results than ids, and every id has one.
pub record IsBulkAnswer (ids : List ℤ) (r : Reply Bulk) : Type 0 where
  pub bulk : Bulk
  pub is_reply : r ≡ replied bulk
  pub added_up : length bulk.updated_items + bulk.failed_count ≡ length bulk.results
  pub at_most : length bulk.results ≤ length ids
  pub answered : All (λ id. is_answered id bulk.results ≡ true) ids

-- A bulk request with at least one id is answered, whatever fails: the incidents moved and the
-- failures add up to the results, there are no more results than ids, and every id of the request
-- has one.
pub bulk_transition_incidents-IsBulkAnswer :
    (body : BulkBody) (user : Option String) (a : Api)
    → (length body.incident_ids == 0) ≡ false
    → IsBulkAnswer body.incident_ids (bulk_transition_incidents (some body) user a).0
unfolding bulk_transition_incidents bulk_reply
bulk_transition_incidents-IsBulkAnswer body user a given =
    let start : IsCounted 0 no_bulk = record {
      added_up = refl;
      at_most = omega arith;
      seen_answered = tt;
    } in
    let done =
      bulk_rounds-IsDone 0 body.incident_ids body.status (changed_by_user user) body.comment no_bulk
        a start in
    rw given (record {
      bulk =
          (bulk_rounds body.incident_ids body.status (changed_by_user user) body.comment
            (no_bulk, a)).0;
      is_reply = refl;
      added_up = done.counted.added_up;
      at_most = omega (arith, done.counted.at_most);
      answered = done.answered;
    })
