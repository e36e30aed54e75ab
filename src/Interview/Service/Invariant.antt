-- ===== src/Interview/Service/Invariant.antt =====
-- What the service keeps true of its sessions, turns and checkpoints.
use gbsa_aws_project.Base.{
  ℕ, suc, ◌+◌, ◌≤◌, ◌≡◌, refl, ap, Option, none, some, List, [], ◌∷◌, ◌++◌, length, arith,
  Bool-cases, inl, inr,
}
use gbsa_aws_project.Base.Equality.{eq, eq→≡, nat_eq, list_eq, pair_eq}
use gbsa_aws_project.Base.Dict.{
  Dict, lookup, insert, lookup-insert, lookup-insert_self, Holds, insert-Holds,
}
use gbsa_aws_project.Shared.Tenant.{SessionKey, session_key}
use gbsa_aws_project.Interview.Session.{InterviewSession}
use gbsa_aws_project.Interview.Session.Machine.{IsValid}
use gbsa_aws_project.Interview.Turn.{Turn}
use gbsa_aws_project.Interview.Checkpoints.{CheckpointRecord}
use gbsa_aws_project.Interview.Service.{InterviewService, or_no_turns, turn_list, with_turns}

-- The turns are numbered from `n` on.
abbrev pub AreNumbered : ℕ → List Turn → Type 0
AreNumbered n [] = Unit
AreNumbered n (t ∷ ts) = (t.sequence ≡ n) × AreNumbered (suc n) ts

pub AreNumbered-append :
    (n : ℕ) (ts : List Turn) (t : Turn)
    → AreNumbered n ts
    → t.sequence ≡ n + length ts
    → AreNumbered n (ts ++ t ∷ [])
AreNumbered-append n [] t h e = (omega arith, tt)
AreNumbered-append n (u ∷ ts) t h e = (h.0, AreNumbered-append (suc n) ts t h.1 (omega arith))

pub AreNumbered-append_two :
    (n : ℕ) (ts : List Turn) (t u : Turn)
    → AreNumbered n ts
    → t.sequence ≡ n + length ts
    → u.sequence ≡ n + length ts + 1
    → AreNumbered n (ts ++ t ∷ u ∷ [])
AreNumbered-append_two n [] t u h e f = (omega arith, (omega arith, tt))
AreNumbered-append_two n (v ∷ ts) t u h e f =
    (h.0, AreNumbered-append_two (suc n) ts t u h.1 (omega arith) (omega arith))

-- A session under its key.
pub record IsFiled (key : SessionKey) (s : InterviewSession) : Type 0 where
  pub valid : IsValid s
  pub own_key : session_key s.scope s.interview_session_id ≡ key

-- The session of a checkpoint is at least as far as the checkpoint.
abbrev pub IsBehind : Dict SessionKey InterviewSession → SessionKey → CheckpointRecord → Type 0
IsBehind sessions key c =
    (s : InterviewSession) × (lookup key sessions ≡ some s)
    × (c.checkpoint.session_sequence ≤ s.session_sequence)

pub record IsConsistent (service : InterviewService) : Type 0 where
  pub filed : Holds IsFiled service.sessions
  pub numbered : Holds (λ _ ts. AreNumbered 1 ts) service.turns
  pub behind : Holds (IsBehind service.sessions) service.checkpoints

or_no_turns-AreNumbered :
    (o : Option (List Turn))
    → ((ts : List Turn) → o ≡ some ts → AreNumbered 1 ts)
    → AreNumbered 1 (or_no_turns o)
or_no_turns-AreNumbered none h = tt
or_no_turns-AreNumbered (some ts) h = h ts refl

pub turn_list-AreNumbered :
    (key : SessionKey) (service : InterviewService)
    → IsConsistent service
    → AreNumbered 1 (turn_list key service)
turn_list-AreNumbered key service h =
    or_no_turns-AreNumbered (lookup key service.turns) (h.numbered key)

pub with_turns-IsConsistent :
    (key : SessionKey) (ts : List Turn) (service : InterviewService)
    → AreNumbered 1 ts
    → IsConsistent service
    → IsConsistent (with_turns key ts service)
with_turns-IsConsistent key ts service line h = record {
  filed = h.filed;
  numbered = insert-Holds (λ _ us. AreNumbered 1 us) key ts service.turns line h.numbered;
  behind = h.behind;
}

-- What a command leaves that moved a session to `s'` and recorded `c`.
abbrev pub stored :
    SessionKey → InterviewSession → CheckpointRecord → InterviewService → InterviewService
stored key s' c service = record service {
  sessions = insert key s' service.sessions;
  checkpoints = insert key c service.checkpoints;
}

-- The same, for a command that made `ts` the turns.
abbrev pub after :
    SessionKey
    → InterviewSession
    → List Turn
    → CheckpointRecord
    → InterviewService
    → InterviewService
after key s' ts c service = with_turns key ts (stored key s' c service)

IsBehind-insert :
    (key : SessionKey) (s s' : InterviewSession) (sessions : Dict SessionKey InterviewSession)
    → lookup key sessions ≡ some s
    → s.session_sequence ≤ s'.session_sequence
    → (j : SessionKey) (c : CheckpointRecord) → IsBehind sessions j c
    → IsBehind (insert key s' sessions) j c
IsBehind-insert key s s' sessions at le j c (t, found, b) = elim (Bool-cases (eq key j)) [
  | inl same ↦
      let k : key ≡ j = eq→≡ key j same in
      let p : s ≡ t = ground arith in
      let q : s.session_sequence ≡ t.session_sequence = ap (λ u. u.session_sequence) p in
      (s', ground (arith, lookup-insert j key s' sessions), omega arith)
  | inr other ↦ (t, ground (arith, lookup-insert j key s' sessions), b)
]

pub stored-IsConsistent :
    (key : SessionKey) (s s' : InterviewSession) (c : CheckpointRecord) (service : InterviewService)
    → IsConsistent service
    → lookup key service.sessions ≡ some s
    → s.session_sequence ≤ s'.session_sequence
    → IsFiled key s'
    → c.checkpoint.session_sequence ≡ s'.session_sequence
    → IsConsistent (stored key s' c service)
stored-IsConsistent key s s' c service h at le f e = record {
  filed = insert-Holds IsFiled key s' service.sessions f h.filed;
  numbered = h.numbered;
  behind =
      insert-Holds (IsBehind (insert key s' service.sessions)) key c service.checkpoints
        (s', lookup-insert_self key s' service.sessions, omega arith)
        (λ j d found. IsBehind-insert key s s' service.sessions at le j d (h.behind j d found));
}

pub after-IsConsistent :
    (key : SessionKey) (s s' : InterviewSession) (ts : List Turn) (c : CheckpointRecord)
    (service : InterviewService)
    → IsConsistent service
    → lookup key service.sessions ≡ some s
    → s.session_sequence ≤ s'.session_sequence
    → IsFiled key s'
    → AreNumbered 1 ts
    → c.checkpoint.session_sequence ≡ s'.session_sequence
    → IsConsistent (after key s' ts c service)
after-IsConsistent key s s' ts c service h at le f line e =
    with_turns-IsConsistent key ts (stored key s' c service) line
      (stored-IsConsistent key s s' c service h at le f e)
