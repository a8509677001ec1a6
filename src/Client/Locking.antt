-- ===== src/Client/Locking.antt =====
-- The lock of `refreshableExoscaleClient`: any number of goroutines that call the API, each under
-- `RLock`, and the goroutine that watches the credentials file, which replaces the client and the
-- credentials under `Lock` (exoscale/client.go, lines 40-46 and 117-126 and 215-218, and the wrappers
-- in exoscale/loadbalancer.go, lines 617-757). A step of the relation is a step of one goroutine.
use exoscale_cloud_controlle.Base.{
  ℕ, ◌≡◌, refl, ◌≢◌, inl, inr, ◌==◌, nat_eq, if◌then◌else◌, sym, ◌∙◌, Bool-cases,
}

-- Where a caller stands: outside, with the lock, with the operation sent through a client and the
-- credentials that went with it, or with the answer of `Wait`, which went through a client too.
pub data Caller (C K : Type 0) : Type 0 where
  outside : Caller C K
  locked : Caller C K
  sent : C → K → Caller C K
  waited : C → K → C → K → Caller C K

-- Where the refreshing goroutine stands: outside, or under `Lock` with what it will write, before
-- the first, the second and no more assignment.
pub data Writer (C K : Type 0) : Type 0 where
  outside : Writer C K
  writing_client : C → K → Writer C K
  writing_credentials : K → Writer C K
  written : Writer C K

pub record Shared (C K : Type 0) : Type 0 where
  pub exo : C
  pub api_credentials : K
  pub writer : Writer C K
  pub callers : ℕ → Caller C K

abbrev pub set_caller : {C K : Type 0} → (ℕ → Caller C K) → ℕ → Caller C K → ℕ → Caller C K
set_caller f i x j = if j == i then x else f j

-- `Made k c` says that `c` is a client that egoscale made for the credentials `k`.
module _ {C K : Type 0} (Made : K → C → Type 0) where
  -- `RLock` waits for the writer, and `Lock` for every caller and the writer.
  pub data Step : Shared C K → Shared C K → Type 0 where
    rlock :
        (s : Shared C K) (i : ℕ)
        → s.callers i ≡ Caller.outside
        → s.writer ≡ Writer.outside
        → Step s (record s { callers = set_caller s.callers i locked })
    operate :
        (s : Shared C K) (i : ℕ)
        → s.callers i ≡ locked
        → Step s (record s { callers = set_caller s.callers i (sent s.exo s.api_credentials) })
    wait :
        (s : Shared C K) (i : ℕ) (c : C) (k : K)
        → s.callers i ≡ sent c k
        → Step s
            (record s { callers = set_caller s.callers i (waited c k s.exo s.api_credentials) })
    runlock :
        (s : Shared C K) (i : ℕ)
        → s.callers i ≢ Caller.outside
        → Step s (record s { callers = set_caller s.callers i Caller.outside })
    lock :
        (s : Shared C K) (c : C) (k : K)
        → Made k c
        → ((i : ℕ) → s.callers i ≡ Caller.outside)
        → s.writer ≡ Writer.outside
        → Step s (record s { writer = writing_client c k })
    write_client :
        (s : Shared C K) (c : C) (k : K)
        → s.writer ≡ writing_client c k
        → Step s (record s { exo = c; writer = writing_credentials k })
    write_credentials :
        (s : Shared C K) (k : K)
        → s.writer ≡ writing_credentials k
        → Step s (record s { api_credentials = k; writer = written })
    unlock : (s : Shared C K) → s.writer ≡ written → Step s (record s { writer = Writer.outside })

  -- Any interleaving of the goroutines.
  pub data Reach (s : Shared C K) : Shared C K → Type 0 where
    here : Reach s s
    next : {t u : Shared C K} → Reach s t → Step t u → Reach s u

abbrev CallerIsFine : {C K : Type 0} → C → K → Writer C K → Caller C K → Type 0
CallerIsFine exo creds w Caller.outside = Unit {0}
CallerIsFine exo creds w locked = w ≡ Writer.outside
CallerIsFine exo creds w (sent c k) = (w ≡ Writer.outside) × (c ≡ exo) × (k ≡ creds)
CallerIsFine exo creds w (waited c k d l) =
    (w ≡ Writer.outside) × (c ≡ exo) × (k ≡ creds) × (d ≡ exo) × (l ≡ creds)

set_caller-all :
    {C K : Type 0} (P : Caller C K → Type 0) (f : ℕ → Caller C K) (i : ℕ) (x : Caller C K)
    → P x
    → ((j : ℕ) → P (f j))
    → (j : ℕ) → P (set_caller f i x j)
set_caller-all P f i x h all j = elim (Bool-cases (j == i)) [
  | inl e ↦ rw e h
  | inr e ↦ rw e (all j)
]

-- While the writer has the lock every caller is outside, whatever is written.
CallerIsFine-writing :
    {C K : Type 0} (exo exo' : C) (creds creds' : K) (w w' : Writer C K) (x : Caller C K)
    → w ≢ Writer.outside
    → CallerIsFine exo creds w x
    → CallerIsFine exo' creds' w' x
CallerIsFine-writing exo exo' creds creds' w w' Caller.outside n h = tt
CallerIsFine-writing exo exo' creds creds' w w' locked n h = absurd (n h)
CallerIsFine-writing exo exo' creds creds' w w' (sent c k) n h = absurd (n h.0)
CallerIsFine-writing exo exo' creds creds' w w' (waited c k d l) n h = absurd (n h.0)

module _ {C K : Type 0} (Made : K → C → Type 0) where
  abbrev WriterIsFine : C → K → Writer C K → Type 0
  WriterIsFine exo creds Writer.outside = Made creds exo
  WriterIsFine exo creds (writing_client c k) = Made k c
  WriterIsFine exo creds (writing_credentials k) = Made k exo
  WriterIsFine exo creds written = Made creds exo

  abbrev pub Inv : Shared C K → Type 0
  Inv s =
      ((i : ℕ) → CallerIsFine s.exo s.api_credentials s.writer (s.callers i))
      × WriterIsFine s.exo s.api_credentials s.writer

  Step-Inv : {s t : Shared C K} → Step Made s t → Inv s → Inv t
  Step-Inv (rlock s i out free) (cs, w) =
      (set_caller-all (CallerIsFine s.exo s.api_credentials s.writer) s.callers i locked free cs, w)
  Step-Inv (operate s i e) (cs, w) = (
    set_caller-all (CallerIsFine s.exo s.api_credentials s.writer) s.callers i _
        (rw e at (cs i), refl, refl) cs,
    w,
  )
  Step-Inv (wait s i c k e) (cs, w) =
      let mine = rw e at (cs i) in
      (
        set_caller-all (CallerIsFine s.exo s.api_credentials s.writer) s.callers i _
            (mine.0, mine.1, mine.2, refl, refl) cs,
        w,
      )
  Step-Inv (runlock s i e) (cs, w) = (
    set_caller-all (CallerIsFine s.exo s.api_credentials s.writer) s.callers i Caller.outside tt cs,
    w,
  )
  Step-Inv (lock s c k made out free) (cs, w) = ((λ i. rw (out i) tt), made)
  Step-Inv (write_client s c k e) (cs, w) = (
    (λ i.
        CallerIsFine-writing s.exo _ s.api_credentials _ s.writer _ (s.callers i) (λ f. cc) (cs i)),
    rw e at w,
  )
  Step-Inv (write_credentials s k e) (cs, w) = (
    (λ i.
        CallerIsFine-writing s.exo _ s.api_credentials _ s.writer _ (s.callers i) (λ f. cc) (cs i)),
    rw e at w,
  )
  Step-Inv (unlock s e) (cs, w) = (
    (λ i.
        CallerIsFine-writing s.exo _ s.api_credentials _ s.writer _ (s.callers i) (λ f. cc) (cs i)),
    rw e at w,
  )

  Reach-Inv : {s t : Shared C K} → Inv s → Reach Made s t → Inv t
  Reach-Inv h here = h
  Reach-Inv h (next r st) = Step-Inv st (Reach-Inv h r)

  abbrev pub IsQuiet : Shared C K → Type 0
  IsQuiet s = ((i : ℕ) → s.callers i ≡ Caller.outside) × (s.writer ≡ Writer.outside)

  quiet-Inv : (s : Shared C K) → IsQuiet s → Made s.api_credentials s.exo → Inv s
  quiet-Inv s (out, free) made = ((λ i. rw (out i) tt), rw free made)

  -- From a state in which nobody has the lock and the client was made for the credentials: however
  -- the callers and the refreshes interleave, a call that has ended waited for its operation on the
  -- client through which it sent it, and that client is the one made for the credentials that were in
  -- place at the time.
  pub waited_same_client :
      (s t : Shared C K) (i : ℕ) {c d : C} {k l : K}
      → IsQuiet s
      → Made s.api_credentials s.exo
      → Reach Made s t
      → t.callers i ≡ waited c k d l
      → (c ≡ d) × (k ≡ l) × Made k c
  waited_same_client s t i quiet made r e =
      let (cs, w) = Reach-Inv (quiet-Inv s quiet made) r in
      let mine = rw e at (cs i) in
      let w' = rw mine.0 at w in (mine.1 ∙ sym mine.3, mine.2 ∙ sym mine.4, rw (mine.1, mine.2) w')
