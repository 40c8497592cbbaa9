-- ===== src/Interoperability/Circuit/Tests.antt =====
-- Tests of `CircuitBreaker`.
use aegis_framework_platform.Base.{◌≡◌, refl, true, false, List, [], ◌∷◌, ok, err, value_error}
use aegis_framework_platform.Interoperability.Circuit.{CircuitBreaker, new_breaker, make_breaker}
use aegis_framework_platform.Interoperability.Circuit.Spec.{
  Call, asks, reports, answers, all_closed,
}
use aegis_framework_platform.Interoperability.Circuit.Refines.{
  breaker_answers, breaker_answers-answers,
}

make_breaker_lem : make_breaker 10 2 300 ≡ ok (new_breaker 2 300)
unfolding make_breaker
make_breaker_lem = refl

never_opened : make_breaker 10 0 300 ≡ err value_error
unfolding make_breaker
never_opened = refl

-- Two failures, a call that is held back, one after the cooldown, and a failure of that.
abbrev calls : List Call
calls =
    reports "p" false 1
    ∷ asks "p" 2
    ∷ reports "p" false 3
    ∷ asks "p" 4
    ∷ asks "q" 4
    ∷ asks "p" 303
    ∷ reports "p" false 304
    ∷ asks "p" 305
    ∷ []

breaker_answers-answers_example :
    breaker_answers (new_breaker 2 300) calls ≡ answers 2 300 all_closed calls
breaker_answers-answers_example =
    breaker_answers-answers 10 2 300 (new_breaker 2 300) calls make_breaker_lem

answers_lem : answers 2 300 all_closed calls ≡ true ∷ false ∷ true ∷ true ∷ false ∷ []
unfolding answers aegis_framework_platform.Interoperability.Circuit.Spec.try
    aegis_framework_platform.Interoperability.Circuit.Spec.settle
answers_lem = refl
