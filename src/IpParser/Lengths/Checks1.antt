-- ===== src/IpParser/Lengths/Checks1.antt =====
-- ext/asyncengine/ip_parser.c: the cases 1 to 10 of the table keep the weights.
use async_engine.Base.{refl, true, ◌≡◌}
use async_engine.IpParser.Lengths.Weight.{all_fit, first_fits, fits, move_fits, state_fits, weight}
use async_engine.IpParser.OpenEnd.{below}
use async_engine.IpMachine.Cases1.{cases_1, cases_2}
use async_engine.IpMachine.Cases2.{cases_3, cases_4}
use async_engine.IpMachine.Cases3.{cases_5, cases_6}
use async_engine.IpMachine.Cases4.{cases_7, cases_8}
use async_engine.IpMachine.Cases5.{cases_9, cases_10}

pub cases_1_fit : all_fit cases_1 ≡ true
unfolding cases_1 all_fit state_fits fits first_fits move_fits weight below
cases_1_fit = refl

pub cases_2_fit : all_fit cases_2 ≡ true
unfolding cases_2 all_fit state_fits fits first_fits move_fits weight below
cases_2_fit = refl

pub cases_3_fit : all_fit cases_3 ≡ true
unfolding cases_3 all_fit state_fits fits first_fits move_fits weight below
cases_3_fit = refl

pub cases_4_fit : all_fit cases_4 ≡ true
unfolding cases_4 all_fit state_fits fits first_fits move_fits weight below
cases_4_fit = refl

pub cases_5_fit : all_fit cases_5 ≡ true
unfolding cases_5 all_fit state_fits fits first_fits move_fits weight below
cases_5_fit = refl

pub cases_6_fit : all_fit cases_6 ≡ true
unfolding cases_6 all_fit state_fits fits first_fits move_fits weight below
cases_6_fit = refl

pub cases_7_fit : all_fit cases_7 ≡ true
unfolding cases_7 all_fit state_fits fits first_fits move_fits weight below
cases_7_fit = refl

pub cases_8_fit : all_fit cases_8 ≡ true
unfolding cases_8 all_fit state_fits fits first_fits move_fits weight below
cases_8_fit = refl

pub cases_9_fit : all_fit cases_9 ≡ true
unfolding cases_9 all_fit state_fits fits first_fits move_fits weight below
cases_9_fit = refl

pub cases_10_fit : all_fit cases_10 ≡ true
unfolding cases_10 all_fit state_fits fits first_fits move_fits weight below
cases_10_fit = refl
