-- ===== src/IpParser/Lengths/Checked.antt =====
-- ext/asyncengine/ip_parser.c: the whole table keeps the weights.
use async_engine.Base.{true, ◌≡◌}
use async_engine.IpMachine.{cases}
use async_engine.IpParser.Lengths.Weight.{all_fit, all_fit-append}
use async_engine.IpMachine.Cases1.{cases_1, cases_2}
use async_engine.IpMachine.Cases2.{cases_3, cases_4}
use async_engine.IpMachine.Cases3.{cases_5, cases_6}
use async_engine.IpMachine.Cases4.{cases_7, cases_8}
use async_engine.IpMachine.Cases5.{cases_9, cases_10}
use async_engine.IpMachine.Cases6.{cases_11, cases_12}
use async_engine.IpMachine.Cases7.{cases_13, cases_14}
use async_engine.IpMachine.Cases8.{cases_15, cases_16}
use async_engine.IpMachine.Cases9.{cases_17, cases_18}
use async_engine.IpMachine.Cases10.{cases_19, cases_20}
use async_engine.IpMachine.Cases11.{cases_21, cases_22}
use async_engine.IpMachine.Cases12.{cases_23, cases_24}
use async_engine.IpMachine.Cases13.{cases_25, cases_26}
use async_engine.IpMachine.Cases14.{cases_27, cases_28}
use async_engine.IpMachine.Cases15.{cases_29, cases_30}
use async_engine.IpMachine.Cases16.{cases_31, cases_32}
use async_engine.IpMachine.Cases17.{cases_33, cases_34}
use async_engine.IpMachine.Cases18.{cases_35, cases_36}
use async_engine.IpMachine.Cases19.{cases_37, cases_38}
use async_engine.IpMachine.Cases20.{cases_39}
use async_engine.IpParser.Lengths.Checks1.{
  cases_1_fit, cases_2_fit, cases_3_fit, cases_4_fit, cases_5_fit, cases_6_fit, cases_7_fit,
  cases_8_fit, cases_9_fit, cases_10_fit,
}
use async_engine.IpParser.Lengths.Checks2.{
  cases_11_fit, cases_12_fit, cases_13_fit, cases_14_fit, cases_15_fit, cases_16_fit, cases_17_fit,
  cases_18_fit, cases_19_fit, cases_20_fit,
}
use async_engine.IpParser.Lengths.Checks3.{
  cases_21_fit, cases_22_fit, cases_23_fit, cases_24_fit, cases_25_fit, cases_26_fit, cases_27_fit,
  cases_28_fit, cases_29_fit, cases_30_fit,
}
use async_engine.IpParser.Lengths.Checks4.{
  cases_31_fit, cases_32_fit, cases_33_fit, cases_34_fit, cases_35_fit, cases_36_fit, cases_37_fit,
  cases_38_fit, cases_39_fit, cases_40_fit,
}

pub cases-fit : all_fit cases ≡ true
unfolding cases
cases-fit =
    (all_fit-append cases_1 _ cases_1_fit (
      all_fit-append cases_2 _ cases_2_fit (
        all_fit-append cases_3 _ cases_3_fit (
          all_fit-append cases_4 _ cases_4_fit (
            all_fit-append cases_5 _ cases_5_fit (
              all_fit-append cases_6 _ cases_6_fit (
                all_fit-append cases_7 _ cases_7_fit (
                  all_fit-append cases_8 _ cases_8_fit (
                    all_fit-append cases_9 _ cases_9_fit (
                      all_fit-append cases_10 _ cases_10_fit (
                        all_fit-append cases_11 _ cases_11_fit (
                          all_fit-append cases_12 _ cases_12_fit (
                            all_fit-append cases_13 _ cases_13_fit (
                              all_fit-append cases_14 _ cases_14_fit (
                                all_fit-append cases_15 _ cases_15_fit (
                                  all_fit-append cases_16 _ cases_16_fit (
                                    all_fit-append cases_17 _ cases_17_fit (
                                      all_fit-append cases_18 _ cases_18_fit (
                                        all_fit-append cases_19 _ cases_19_fit (
                                          all_fit-append cases_20 _ cases_20_fit (
                                            all_fit-append cases_21 _ cases_21_fit (
                                              all_fit-append cases_22 _ cases_22_fit (
                                                all_fit-append cases_23 _ cases_23_fit (
                                                  all_fit-append cases_24 _ cases_24_fit (
                                                    all_fit-append cases_25 _ cases_25_fit (
                                                      all_fit-append cases_26 _ cases_26_fit (
                                                        all_fit-append cases_27 _ cases_27_fit (
                                                          all_fit-append cases_28 _ cases_28_fit (
                                                            all_fit-append cases_29 _ cases_29_fit (
                                                            all_fit-append cases_30 _ cases_30_fit (
                                                            all_fit-append cases_31 _ cases_31_fit (
                                                            all_fit-append cases_32 _ cases_32_fit (
                                                            all_fit-append cases_33 _ cases_33_fit (
                                                            all_fit-append cases_34 _ cases_34_fit (
                                                            all_fit-append cases_35 _ cases_35_fit (
                                                            all_fit-append cases_36 _ cases_36_fit (
                                                            all_fit-append cases_37 _ cases_37_fit (
                                                            all_fit-append cases_38 _ cases_38_fit (
                                                            all_fit-append cases_39 _ cases_39_fit
                                                            cases_40_fit)))))))))))))))))))))))))))))))))))))))
