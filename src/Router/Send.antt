-- ===== src/Router/Send.antt =====
-- What `send` and `snapshot` of librtimv/rtimvCommandInterface.cpp give, on every branch.
use rtimv.Common.{ℕ, ◌≡◌, ◌≢◌, refl, Option, none, some, true, false, List, [], ◌∷◌}
use rtimv.Router.{
  World, Provider, Outcome, returns, throws, throws_other, provider, Error, texts, settle,
  hand_over, send,
}

-- The commands reached the only provider of the protocol, and it accepted them.
pub record IsSent {C S : Type 0} (w : World C S) (protocol : ℕ) (commands : List C) (is : List ℕ)
    (error : Option Error) : Type 0 where
  pub target : Provider C S
  pub found : provider w protocol is ≡ some target
  pub filled : commands ≢ []
  pub message : Option ℕ
  pub accepted : target.send_commands commands ≡ returns true message
  pub passed_on : error ≡ texts message

settle-true :
    (r : Outcome)
    → (settle r).0 ≡ true
    → (e : Option ℕ) × (r ≡ returns true e) × ((settle r).1 ≡ texts e)
unfolding settle
settle-true (returns true e) h = (e, refl, refl)
settle-true (returns false e) h = cc
settle-true (throws e) h = cc
settle-true throws_other h = cc

handed_over :
    {C S : Type 0} (w : World C S) (protocol : ℕ) (commands : List C) (is : List ℕ)
    (found : Option (Provider C S))
    → provider w protocol is ≡ found
    → (hand_over found commands).0 ≡ true
    → IsSent w protocol commands is (hand_over found commands).1
unfolding hand_over
handed_over w protocol commands is none e h = cc
handed_over w protocol [] is (some target) e h = cc
handed_over w protocol (c ∷ cs) is (some target) e h =
    let (message, accepted, passed_on) = settle-true (target.send_commands (c ∷ cs)) h in
    record {
      target = target;
      found = e;
      filled = λ n. cc;
      message = message;
      accepted = accepted;
      passed_on = passed_on;
    }

-- `send` answers true only if the protocol has one provider, there are commands, and the provider
-- accepted them; the error is then the one that the provider left. An exception of the provider
-- never makes it true.
pub send-IsSent :
    {C S : Type 0} (w : World C S) (protocol : ℕ) (commands : List C) (is : List ℕ)
    → (send w protocol commands is).0 ≡ true
    → IsSent w protocol commands is (send w protocol commands is).1
unfolding send
send-IsSent w protocol commands is h =
    handed_over w protocol commands is (provider w protocol is) refl h
