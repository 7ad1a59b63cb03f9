-- ===== src/Clients/Payload.antt =====
-- `large_payload` of automation/coap_client_libcoap/automated_iut.py, and of the same module of
-- coap_client_aiocoap.
use ioppytest.Prelude.{◌++◌, Text, codes}

abbrev pub large_payload : Text
large_payload =
    codes "<large>Lorem ipsum dolor sit amet, consectetur adipiscingelit. Donec sit amet sapien"
    ++ (codes " ac leo bibendum suscipit at sed ipsum. Aliquamin mauris nec felis dictum lobortis a"
        ++ (codes " et erat. Pellentesque tempus urnavulputate purus faucibus ac pretium massa "
            ++ (codes
                  "volutpat. Maecenas at tellusneque , quis elementum ante. Morbi molestie, elit "
                ++ (codes
                      "placerat rhoncus faucibus, urna nunc accumsan diam, vel porta eros sem vel augue. "
                    ++ (codes
                          "Proin metus dolor,tristique a accumsan eget, suscipit vel ante. Suspendisse feugiat,"
                        ++ (codes
                              " nisl nonviverra convallis, ante nibh congue lectus, sodales ultrices turpis "
                            ++ (codes
                                  "massased elit.Praesent posuere laoreet nulla eu accumsan. Vestibulum consequat "
                                ++ (codes
                                      "molestieerat, ut laoreet arcu mattis non. Maecenas viverra elementum mauris, "
                                    ++ (codes
                                          "vitaepretium elit ultrices sit amet. Sed sit amet elit sit amet dui "
                                        ++ (codes
                                              "imperdietconsequat. Donec viverra leo mollis lorem varius lacinia mollis "
                                            ++ (codes
                                                  "nullaposuere. Phasellus felis odio, tempor et sodales non, facilisis fermentumeros. "
                                                ++ (codes
                                                      "Duis dignissim massa at ante euismod vel laoreet mi tristique.Nulla libero dolor, "
                                                    ++ (codes
                                                          "pretium vitae vulputate eget, luctus at sapien.Praesent aliquam nisl ut urna pretium"
                                                        ++ (codes
                                                            " eu rhoncus ipsum eleifend.Sed lobortis vestibulum est eu eleifend. Sed vitae luctus"
                                                            ++ (codes
                                                            " erat.Sed vel dolor quam, tempor venenatis dolor.Vivamus a est a neque condimentum "
                                                            ++ (codes
                                                            "fermentum sed quis dui.Maecenas rhoncus imperdiet tortor, vitae viverra lectus "
                                                            ++ (codes
                                                            "ornare vulputate.Nam congue pulvinar faucibus. Vivamus id mauris at tortor porta "
                                                            ++ (codes
                                                            "volutpat.Donec non velit a tellus placerat iaculis. Cum sociis natoque penatibus "
                                                            ++ (codes
                                                            "etmagnis dis parturient montes, nascetur ridiculus mus.Suspendisse at felis ligula, "
                                                            ++ (codes
                                                            "vel euismod velit. Aliquam in odio urna.Lorem ipsum dolor sit amet, consectetur "
                                                            ++ (codes
                                                            "adipiscing elit.Lorem ipsum dolor sit amet, consectetur adipiscing elit.Nullam ac "
                                                            ++ (codes
                                                            "risus ipsum. Donec vel purus risus, eu molestie nisi.Vestibulum ante ipsum primis in"
                                                            ++ (codes
                                                            " faucibus orci luctus et ultrices posuerecubilia Curae; Suspendisse consequat libero"
                                                            ++ (codes
                                                            " eu augue ornare volutpatmollis sed dui. Ut sed. </large>"))))))))))))))))))))))))
