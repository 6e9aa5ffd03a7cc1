-- ===== src/Cmd/Provider/Access.antt =====
-- canWatchCRD of cmd/provider/main.go: what its answer says of the reviews it created.
use provider_upjet_unifi.Base.{◌≡◌, refl, ap, true, false, List, [], ◌∷◌, ◌++◌, String}
use provider_upjet_unifi.Controller.{Fault, wrapped}
use provider_upjet_unifi.Cmd.Provider.{
  Review, refused, answered, Platform, Watch, on_answer, check_verbs, rbac_failure,
}

module _ (P : Platform) where
  open P use {manager, create_review}
  open manager use {World, Failure}

  -- A review was created for each verb in order, and each allows its access.
  pub data Allowed : List String → World → World → Type 0 where
    none_left : (w : World) → Allowed [] w w
    next :
        {verb : String} {rest : List String} {w v u : World}
        → create_review verb w ≡ (answered true, v)
        → Allowed rest v u
        → Allowed (verb ∷ rest) w u

  -- The verbs before one are allowed, and the review of that one gives `r`.
  pub record Halted (verbs : List String) (w u : World) (r : Review Failure) : Type 0 where
    pub before : List String
    pub halting : String
    pub behind : List String
    pub reached : World
    pub split : verbs ≡ before ++ (halting ∷ behind)
    pub allowed : Allowed before w reached
    pub review : create_review halting reached ≡ (r, u)

  -- The error that a review ended with, as canWatchCRD wraps it.
  pub record HaltedBy (verbs : List String) (w u : World) (f : Fault Failure) : Type 0 where
    pub error : Failure
    pub halted : Halted verbs w u (refused error)
    pub wrapping : f ≡ wrapped error (rbac_failure P)

  abbrev pub Verdict : List String → World → Watch P → Type 0
  Verdict verbs w (answered true, u) = Allowed verbs w u
  Verdict verbs w (answered false, u) = Halted verbs w u (answered false)
  Verdict verbs w (refused f, u) = HaltedBy verbs w u f

  Halted-next :
      {verb : String} {verbs : List String} {w v u : World} {r : Review Failure}
      → create_review verb w ≡ (answered true, v)
      → Halted verbs v u r
      → Halted (verb ∷ verbs) w u r
  Halted-next {verb} e h = record {
    before = verb ∷ h.before;
    halting = h.halting;
    behind = h.behind;
    reached = h.reached;
    split = ap (λ l. verb ∷ l) h.split;
    allowed = next e h.allowed;
    review = h.review;
  }

  Halted-here :
      {verb : String} {verbs : List String} {w u : World} {r : Review Failure}
      → create_review verb w ≡ (r, u)
      → Halted (verb ∷ verbs) w u r
  Halted-here {verb} {verbs} {w} e = record {
    before = [];
    halting = verb;
    behind = verbs;
    reached = w;
    split = refl;
    allowed = none_left w;
    review = e;
  }

  Verdict-on_answer :
      (verb : String) (verbs : List String) (w : World) (r : Review Failure) (v : World)
      → create_review verb w ≡ (r, v)
      → ((v : World) → Verdict verbs v (check_verbs P verbs v))
      → Verdict (verb ∷ verbs) w (on_answer P r v (λ v. check_verbs P verbs v))
  Verdict-on_answer verb verbs w (refused f) v e ih = record {
    error = f;
    halted = Halted-here e;
    wrapping = refl;
  }
  Verdict-on_answer verb verbs w (answered false) v e ih = Halted-here e
  Verdict-on_answer verb verbs w (answered true) v e ih = onward (check_verbs P verbs v) (ih v)
    where
      onward : (r : Watch P) → Verdict verbs v r → Verdict (verb ∷ verbs) w r
      onward (answered true, u) h = next e h
      onward (answered false, u) h = Halted-next e h
      onward (refused f, u) h = record {
        error = h.error;
        halted = Halted-next e h.halted;
        wrapping = h.wrapping;
      }

  -- The check of a list of verbs answers true exactly after a review of each verb, in order, allowed
  -- it. It answers false at the first review that does not, and fails with the wrapped error of the
  -- first that cannot be created; no later verb is reviewed then.
  pub check_verbs-Verdict :
      (verbs : List String) (w : World) → Verdict verbs w (check_verbs P verbs w)
  unfolding check_verbs
  check_verbs-Verdict [] w = none_left w
  check_verbs-Verdict (verb ∷ verbs) w =
      Verdict-on_answer verb verbs w (create_review verb w).0 (create_review verb w).1 refl
        (λ v. check_verbs-Verdict verbs v)
