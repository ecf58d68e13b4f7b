-- ===== src/IpParser/Lengths/Checks4.antt =====
-- ext/asyncengine/ip_parser.c: the cases 31 to 40 of the table keep the weights.
use async_engine.Base.{refl, true, ◌≡◌}
use async_engine.IpParser.Lengths.Weight.{all_fit, first_fits, fits, move_fits, state_fits, weight}
use async_engine.IpParser.OpenEnd.{below}
use async_engine.IpMachine.Cases16.{cases_31, cases_32}
use async_engine.IpMachine.Cases17.{cases_33, cases_34}
use async_engine.IpMachine.Cases18.{cases_35, cases_36}
use async_engine.IpMachine.Cases19.{cases_37, cases_38}
use async_engine.IpMachine.Cases20.{cases_39, cases_40}

pub cases_31_fit : all_fit cases_31 ≡ true
unfolding cases_31 all_fit state_fits fits first_fits move_fits weight below
cases_31_fit = refl

pub cases_32_fit : all_fit cases_32 ≡ true
unfolding cases_32 all_fit state_fits fits first_fits move_fits weight below
cases_32_fit = refl

pub cases_33_fit : all_fit cases_33 ≡ true
unfolding cases_33 all_fit state_fits fits first_fits move_fits weight below
cases_33_fit = refl

pub cases_34_fit : all_fit cases_34 ≡ true
unfolding cases_34 all_fit state_fits fits first_fits move_fits weight below
cases_34_fit = refl

pub cases_35_fit : all_fit cases_35 ≡ true
unfolding cases_35 all_fit state_fits fits first_fits move_fits weight below
cases_35_fit = refl

pub cases_36_fit : all_fit cases_36 ≡ true
unfolding cases_36 all_fit state_fits fits first_fits move_fits weight below
cases_36_fit = refl

pub cases_37_fit : all_fit cases_37 ≡ true
unfolding cases_37 all_fit state_fits fits first_fits move_fits weight below
cases_37_fit = refl

pub cases_38_fit : all_fit cases_38 ≡ true
unfolding cases_38 all_fit state_fits fits first_fits move_fits weight below
cases_38_fit = refl

pub cases_39_fit : all_fit cases_39 ≡ true
unfolding cases_39 all_fit state_fits fits first_fits move_fits weight below
cases_39_fit = refl

pub cases_40_fit : all_fit cases_40 ≡ true
unfolding cases_40 all_fit state_fits fits first_fits move_fits weight below
cases_40_fit = refl
