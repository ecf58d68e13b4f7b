-- ===== src/IpParser/Lengths/Checks2.antt =====
-- ext/asyncengine/ip_parser.c: the cases 11 to 20 of the table keep the weights.
use async_engine.Base.{refl, true, ◌≡◌}
use async_engine.IpParser.Lengths.Weight.{all_fit, first_fits, fits, move_fits, state_fits, weight}
use async_engine.IpParser.OpenEnd.{below}
use async_engine.IpMachine.Cases6.{cases_11, cases_12}
use async_engine.IpMachine.Cases7.{cases_13, cases_14}
use async_engine.IpMachine.Cases8.{cases_15, cases_16}
use async_engine.IpMachine.Cases9.{cases_17, cases_18}
use async_engine.IpMachine.Cases10.{cases_19, cases_20}

pub cases_11_fit : all_fit cases_11 ≡ true
unfolding cases_11 all_fit state_fits fits first_fits move_fits weight below
cases_11_fit = refl

pub cases_12_fit : all_fit cases_12 ≡ true
unfolding cases_12 all_fit state_fits fits first_fits move_fits weight below
cases_12_fit = refl

pub cases_13_fit : all_fit cases_13 ≡ true
unfolding cases_13 all_fit state_fits fits first_fits move_fits weight below
cases_13_fit = refl

pub cases_14_fit : all_fit cases_14 ≡ true
unfolding cases_14 all_fit state_fits fits first_fits move_fits weight below
cases_14_fit = refl

pub cases_15_fit : all_fit cases_15 ≡ true
unfolding cases_15 all_fit state_fits fits first_fits move_fits weight below
cases_15_fit = refl

pub cases_16_fit : all_fit cases_16 ≡ true
unfolding cases_16 all_fit state_fits fits first_fits move_fits weight below
cases_16_fit = refl

pub cases_17_fit : all_fit cases_17 ≡ true
unfolding cases_17 all_fit state_fits fits first_fits move_fits weight below
cases_17_fit = refl

pub cases_18_fit : all_fit cases_18 ≡ true
unfolding cases_18 all_fit state_fits fits first_fits move_fits weight below
cases_18_fit = refl

pub cases_19_fit : all_fit cases_19 ≡ true
unfolding cases_19 all_fit state_fits fits first_fits move_fits weight below
cases_19_fit = refl

pub cases_20_fit : all_fit cases_20 ≡ true
unfolding cases_20 all_fit state_fits fits first_fits move_fits weight below
cases_20_fit = refl
