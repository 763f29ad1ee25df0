-- ===== src/Futures/Hypothesis/Versions.antt =====
-- The versions of a hypothesis, and where its life ends.
use native.Mathlib.Nat.{le_trans}
use zhigu.Base.{
  List, ℕ, ◌+◌, ◌≤◌, ◌≡◌, refl, ◌∙◌, inl, inr, Bool, false, Option, none, some, String,
  if◌then◌else◌, ok, err, Error, arith, Option-cases, null_gt, leb, ◌&&◌,
}
use zhigu.Futures.Hypothesis.{
  Lifecycle, Condition, edit_hypothesis, ask_review, draft, active, paused, closed, expired,
  deleted, HypothesisState, act, is_live, acknowledge_hypothesis, transition_hypothesis,
  decide_hypothesis, expire_hypothesis,
}

-- One operation that succeeds.
pub data Change (s t : HypothesisState) : Type 0 where
  acknowledges : (reviewed : ℕ) → acknowledge_hypothesis s reviewed ≡ ok t → Change s t
  transitions :
      (action : String) (version : ℕ) → transition_hypothesis s action version ≡ ok t → Change s t
  decides :
      (view reason : String) (reviewed : ℕ)
      → decide_hypothesis s view reason reviewed ≡ ok t
      → Change s t
  edits :
      (version : ℕ) (proposition : Option String) (expires_at : Option ℕ)
      (conditions : List Condition) (now : ℕ)
      → edit_hypothesis s version proposition expires_at conditions now ≡ ok t
      → Change s t
  asks_review : t ≡ ask_review s → Change s t
  expires : (now : ℕ) → t ≡ expire_hypothesis s now → Change s t

pub data Changes (s : HypothesisState) : HypothesisState → Type 0 where
  start : Changes s s
  then_ : {t u : HypothesisState} → Changes s t → Change t u → Changes s u

-- The number of the last check that was reviewed, 0 if none was.
abbrev number_of : Option ℕ → ℕ
number_of none = 0
number_of (some n) = n

abbrev pub reviewed_up_to : HypothesisState → ℕ
reviewed_up_to s = number_of s.reviewed_check_version

-- A rank that no operation lowers: a hypothesis that was active is no draft again, one that has expired
-- is not live again, and one that is closed or deleted is not open again.
abbrev pub rank : Lifecycle → ℕ
rank draft = 0
rank active = 1
rank paused = 1
rank expired = 2
rank closed = 3
rank deleted = 3

pub record Onward (s t : HypothesisState) : Type 0 where
  pub version : s.version ≤ t.version
  pub reviewed : reviewed_up_to s ≤ reviewed_up_to t
  pub ranked : rank s.lifecycle ≤ rank t.lifecycle
  pub ended : 3 ≤ rank s.lifecycle → t.lifecycle ≡ s.lifecycle
  pub lasting : t.version ≡ s.version → t.expires_at ≡ s.expires_at

act-rank :
    (action : String) (l m : Lifecycle)
    → act action l ≡ some m
    → (rank l ≤ rank m) × (3 ≤ rank l → m ≡ l)
act-rank action draft m h = (omega arith, λ e. absurd (omega arith))
act-rank action active m h = (ground arith, λ e. absurd (omega arith))
act-rank action paused m h = (ground arith, λ e. absurd (omega arith))
act-rank action expired m h = (ground arith, λ e. absurd (omega arith))
act-rank action closed m h = absurd (ground arith)
act-rank action deleted m h = absurd (ground arith)

transition-eq-ok :
    (s t : HypothesisState) (action : String) (version : ℕ)
    → transition_hypothesis s action version ≡ ok t
    → (s.version ≡ version)
      × (m : Lifecycle) × (act action s.lifecycle ≡ some m)
      × (t ≡ record s { lifecycle = m; version = s.version + 1 })
unfolding transition_hypothesis
transition-eq-ok s t action version h = elim (Option-cases (act action s.lifecycle)) [
  | inl e ↦ absurd (ground arith)
  | inr (m, e) ↦ (ground arith, m, e, ground arith)
]

not_before : (a : Option ℕ) (n : ℕ) → null_gt a n ≡ false → number_of a ≤ n
not_before none n h = omega arith
not_before (some m) n h = ground arith

acknowledge-eq-ok :
    (s t : HypothesisState) (reviewed : ℕ)
    → acknowledge_hypothesis s reviewed ≡ ok t
    → (null_gt s.reviewed_check_version reviewed ≡ false)
      × (t ≡ record s {
        reviewed_check_version = some reviewed;
        needs_review = false;
        version = s.version + 1;
      })
unfolding acknowledge_hypothesis
acknowledge-eq-ok s t reviewed h = ground arith

decide-eq-ok :
    (s t : HypothesisState) (view reason : String) (reviewed : ℕ)
    → decide_hypothesis s view reason reviewed ≡ ok t
    → (null_gt s.reviewed_check_version reviewed ≡ false)
      × (t ≡ record s {
        user_view = view;
        view_reason = reason;
        reviewed_check_version = some reviewed;
        version = s.version + 1;
      })
unfolding decide_hypothesis
decide-eq-ok s t view reason reviewed h = ground arith

expire-rank :
    (l : Lifecycle) (due : Bool)
    → (rank l ≤ rank (if is_live l && due then expired else l))
      × (3 ≤ rank l → (if is_live l && due then expired else l) ≡ l)
expire-rank draft due = (omega arith, λ _. refl)
expire-rank active due = (ground arith, λ e. absurd (omega arith))
expire-rank paused due = (ground arith, λ e. absurd (omega arith))
expire-rank expired due = (omega arith, λ _. refl)
expire-rank closed due = (omega arith, λ _. refl)
expire-rank deleted due = (omega arith, λ _. refl)

expire-eq :
    (s : HypothesisState) (now : ℕ)
    → expire_hypothesis s now ≡ record s {
      lifecycle = if is_live s.lifecycle && leb s.expires_at now then expired else s.lifecycle;
    }
unfolding expire_hypothesis
expire-eq s now = ground arith

edit-eq-ok :
    (s t : HypothesisState) (version : ℕ) (proposition : Option String) (expires_at : Option ℕ)
    (conditions : List Condition) (now : ℕ)
    → edit_hypothesis s version proposition expires_at conditions now ≡ ok t
    → (at : ℕ) × (t ≡ record s { expires_at = at; version = s.version + 1 })
unfolding edit_hypothesis
edit-eq-ok s t version proposition none conditions now h = absurd (ground arith)
edit-eq-ok s t version proposition (some at) conditions now h = (at, ground arith)

later_only : (a b c : ℕ) → a ≤ b → b ≤ c → c ≡ a → (b ≡ a) × (c ≡ b)
later_only a b c h k e = (omega arith, omega arith)

Change-Onward : {s t : HypothesisState} → Change s t → Onward s t
Change-Onward {s} {t} (acknowledges reviewed h) =
    let (later, e) = acknowledge-eq-ok s t reviewed h in
    rw e (record {
      version = omega arith;
      reviewed = not_before s.reviewed_check_version reviewed later;
      ranked = omega arith;
      ended = λ _. refl;
      lasting = λ _. refl;
    })
Change-Onward {s} {t} (transitions action version h) =
    let (_, m, moved, e) = transition-eq-ok s t action version h in
    let (up, stuck) = act-rank action s.lifecycle m moved in
    rw e (record {
      version = omega arith;
      reviewed = omega arith;
      ranked = up;
      ended = stuck;
      lasting = λ _. refl;
    })
Change-Onward {s} {t} (decides view reason reviewed h) =
    let (later, e) = decide-eq-ok s t view reason reviewed h in
    rw e (record {
      version = omega arith;
      reviewed = not_before s.reviewed_check_version reviewed later;
      ranked = omega arith;
      ended = λ _. refl;
      lasting = λ _. refl;
    })
Change-Onward {s} {t} (edits version proposition expires_at conditions now h) =
    let (at, e) = edit-eq-ok s t version proposition expires_at conditions now h in
    rw e (record {
      version = omega arith;
      reviewed = omega arith;
      ranked = omega arith;
      ended = λ _. refl;
      lasting = λ k. absurd (omega arith);
    })
Change-Onward {s} (asks_review e) = rw e (record {
  version = omega arith;
  reviewed = omega arith;
  ranked = omega arith;
  ended = λ _. refl;
  lasting = λ _. refl;
})
Change-Onward {s} (expires now e) =
    let (up, stuck) = expire-rank s.lifecycle (leb s.expires_at now) in
    rw (e, expire-eq s now)
      (record {
        version = omega arith;
        reviewed = omega arith;
        ranked = up;
        ended = stuck;
        lasting = λ _. refl;
      })

-- Any number of acknowledgements, transitions, decisions and edits that succeed, of requests for a
-- review and of expiries never lower the version of a hypothesis nor the number of the last check that
-- was reviewed, never take its lifecycle back (from live to draft, from expired to live, from closed or
-- deleted to anything else), and leave its expiry unless the version has gone up.
pub Changes-Onward : {s t : HypothesisState} → Changes s t → Onward s t
Changes-Onward {s} start = record {
  version = omega arith;
  reviewed = omega arith;
  ranked = omega arith;
  ended = λ _. refl;
  lasting = λ _. refl;
}
Changes-Onward {s} (then_ past step) =
    let before = Changes-Onward past in
    let after = Change-Onward step in
    record {
      version = le_trans before.version after.version;
      reviewed = le_trans before.reviewed after.reviewed;
      ranked = le_trans before.ranked after.ranked;
      ended = λ e. after.ended (le_trans e before.ranked) ∙ before.ended e;
      lasting = λ e.
          let same = later_only s.version _ _ before.version after.version e in
          after.lasting (same.1) ∙ before.lasting (same.0);
    }

-- Of two transitions that expect one version only the first can succeed: the second meets
-- ErrRevisionConflict, whatever its action is and whether or not the hypothesis has expired in between.
pub transition_hypothesis-once :
    (s t : HypothesisState) (action : String) (version : ℕ)
    → transition_hypothesis s action version ≡ ok t
    → (other : String) (now : ℕ)
    → transition_hypothesis (expire_hypothesis t now) other version ≡ err Error.revision_conflict
unfolding transition_hypothesis
transition_hypothesis-once s t action version h other now =
    let (same, m, _, e) = transition-eq-ok s t action version h in
    rw (e, expire-eq _ now) (ground arith)
