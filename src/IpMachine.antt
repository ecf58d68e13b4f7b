-- ===== src/IpMachine.antt =====
-- ext/asyncengine/ip_parser.c: the table of the generated machine, in the order of the source.
pub mod Moves
pub mod Cases1
pub mod Cases2
pub mod Cases3
pub mod Cases4
pub mod Cases5
pub mod Cases6
pub mod Cases7
pub mod Cases8
pub mod Cases9
pub mod Cases10
pub mod Cases11
pub mod Cases12
pub mod Cases13
pub mod Cases14
pub mod Cases15
pub mod Cases16
pub mod Cases17
pub mod Cases18
pub mod Cases19
pub mod Cases20
use async_engine.Base.{ℕ, List, [], ◌∷◌, ◌++◌, ◌==◌, if◌then◌else◌}
use Moves.{Goto, st}
use Cases1.{cases_1, cases_2}
use Cases2.{cases_3, cases_4}
use Cases3.{cases_5, cases_6}
use Cases4.{cases_7, cases_8}
use Cases5.{cases_9, cases_10}
use Cases6.{cases_11, cases_12}
use Cases7.{cases_13, cases_14}
use Cases8.{cases_15, cases_16}
use Cases9.{cases_17, cases_18}
use Cases10.{cases_19, cases_20}
use Cases11.{cases_21, cases_22}
use Cases12.{cases_23, cases_24}
use Cases13.{cases_25, cases_26}
use Cases14.{cases_27, cases_28}
use Cases15.{cases_29, cases_30}
use Cases16.{cases_31, cases_32}
use Cases17.{cases_33, cases_34}
use Cases18.{cases_35, cases_36}
use Cases19.{cases_37, cases_38}
use Cases20.{cases_39, cases_40}

unfoldable pub cases : List (ℕ × (ℕ → Goto))
unfolding cases_1 cases_2 cases_3 cases_4 cases_5 cases_6 cases_7 cases_8 cases_9 cases_10 cases_11
    cases_12 cases_13 cases_14 cases_15 cases_16 cases_17 cases_18 cases_19 cases_20 cases_21
    cases_22 cases_23 cases_24 cases_25 cases_26 cases_27 cases_28 cases_29 cases_30 cases_31
    cases_32 cases_33 cases_34 cases_35 cases_36 cases_37 cases_38 cases_39 cases_40
cases =
    cases_1 ++ cases_2 ++ cases_3 ++ cases_4 ++ cases_5 ++ cases_6 ++ cases_7 ++ cases_8 ++ cases_9
    ++ cases_10 ++ cases_11 ++ cases_12 ++ cases_13 ++ cases_14 ++ cases_15 ++ cases_16 ++ cases_17
    ++ cases_18 ++ cases_19 ++ cases_20 ++ cases_21 ++ cases_22 ++ cases_23 ++ cases_24 ++ cases_25
    ++ cases_26 ++ cases_27 ++ cases_28 ++ cases_29 ++ cases_30 ++ cases_31 ++ cases_32 ++ cases_33
    ++ cases_34 ++ cases_35 ++ cases_36 ++ cases_37 ++ cases_38 ++ cases_39 ++ cases_40

-- `switch (cs)`: the state's case, and the error state for a number that is none.
unfoldable pub find_case : ℕ → List (ℕ × (ℕ → Goto)) → ℕ → Goto
find_case cs [] c = st 0
find_case cs ((n, body) ∷ rest) c = if n == cs then body c else find_case cs rest c
