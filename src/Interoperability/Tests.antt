-- ===== src/Interoperability/Tests.antt =====
-- A quota of two requests and five units.
use aegis_framework_platform.Base.{◌≡◌, refl, ok, err, policy_denied, value_error}
use aegis_framework_platform.Base.Dict.{get, put}
use aegis_framework_platform.Interoperability.{
  InvocationQuota, new_quota, make_quota, reserve_invocation,
}
use aegis_framework_platform.Interoperability.Bounds.{start, after, IsWithin, usage-IsWithin}

abbrev one_reserved : InvocationQuota
one_reserved = (reserve_invocation "a" "r1" 3 (new_quota 2 5)).1

-- The cost of the second reservation is beyond the limit.
exhausted_test : (reserve_invocation "a" "r2" 4 one_reserved).0 ≡ err policy_denied
unfolding reserve_invocation get put
exhausted_test = refl

usage-IsWithin_example : IsWithin 2 5 (reserve_invocation "a" "r2" 2 one_reserved).1 "a"
usage-IsWithin_example =
    usage-IsWithin 2 5 (reserve_invocation "a" "r2" 2 one_reserved).1 "a"
      (after "a" "r2" 2 (after "a" "r1" 3 start))

accepted_test : (reserve_invocation "a" "r1" 3 (new_quota 2 5)).0 ≡ ok tt
unfolding reserve_invocation get
accepted_test = refl

no_requests_test : make_quota 0 5 ≡ err value_error
unfolding make_quota
no_requests_test = refl
