-- ===== src/IpParser/Lengths/Checks3.antt =====
-- ext/asyncengine/ip_parser.c: the cases 21 to 30 of the table keep the weights.
use async_engine.Base.{refl, true, ◌≡◌}
use async_engine.IpParser.Lengths.Weight.{all_fit, first_fits, fits, move_fits, state_fits, weight}
use async_engine.IpParser.OpenEnd.{below}
use async_engine.IpMachine.Cases11.{cases_21, cases_22}
use async_engine.IpMachine.Cases12.{cases_23, cases_24}
use async_engine.IpMachine.Cases13.{cases_25, cases_26}
use async_engine.IpMachine.Cases14.{cases_27, cases_28}
use async_engine.IpMachine.Cases15.{cases_29, cases_30}

pub cases_21_fit : all_fit cases_21 ≡ true
unfolding cases_21 all_fit state_fits fits first_fits move_fits weight below
cases_21_fit = refl

pub cases_22_fit : all_fit cases_22 ≡ true
unfolding cases_22 all_fit state_fits fits first_fits move_fits weight below
cases_22_fit = refl

pub cases_23_fit : all_fit cases_23 ≡ true
unfolding cases_23 all_fit state_fits fits first_fits move_fits weight below
cases_23_fit = refl

pub cases_24_fit : all_fit cases_24 ≡ true
unfolding cases_24 all_fit state_fits fits first_fits move_fits weight below
cases_24_fit = refl

pub cases_25_fit : all_fit cases_25 ≡ true
unfolding cases_25 all_fit state_fits fits first_fits move_fits weight below
cases_25_fit = refl

pub cases_26_fit : all_fit cases_26 ≡ true
unfolding cases_26 all_fit state_fits fits first_fits move_fits weight below
cases_26_fit = refl

pub cases_27_fit : all_fit cases_27 ≡ true
unfolding cases_27 all_fit state_fits fits first_fits move_fits weight below
cases_27_fit = refl

pub cases_28_fit : all_fit cases_28 ≡ true
unfolding cases_28 all_fit state_fits fits first_fits move_fits weight below
cases_28_fit = refl

pub cases_29_fit : all_fit cases_29 ≡ true
unfolding cases_29 all_fit state_fits fits first_fits move_fits weight below
cases_29_fit = refl

pub cases_30_fit : all_fit cases_30 ≡ true
unfolding cases_30 all_fit state_fits fits first_fits move_fits weight below
cases_30_fit = refl
