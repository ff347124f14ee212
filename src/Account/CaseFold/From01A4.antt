-- ===== src/Account/CaseFold/From01A4.antt =====
-- The rows of FULL_DEFAULT_CASE_FOLD in rust/src/api/account_envelope/unicode17_casefold.rs from
-- U+01A4 to U+03F0.
use openmls_dart.Prelude.{ℕ, List, [], ◌∷◌}

unfoldable pub folds_from_01a4 : List (ℕ × List ℕ)
folds_from_01a4 =
    (420, 421 ∷ [])
    ∷ (422, 640 ∷ [])
    ∷ (423, 424 ∷ [])
    ∷ (425, 643 ∷ [])
    ∷ (428, 429 ∷ [])
    ∷ (430, 648 ∷ [])
    ∷ (431, 432 ∷ [])
    ∷ (433, 650 ∷ [])
    ∷ (434, 651 ∷ [])
    ∷ (435, 436 ∷ [])
    ∷ (437, 438 ∷ [])
    ∷ (439, 658 ∷ [])
    ∷ (440, 441 ∷ [])
    ∷ (444, 445 ∷ [])
    ∷ (452, 454 ∷ [])
    ∷ (453, 454 ∷ [])
    ∷ (455, 457 ∷ [])
    ∷ (456, 457 ∷ [])
    ∷ (458, 460 ∷ [])
    ∷ (459, 460 ∷ [])
    ∷ (461, 462 ∷ [])
    ∷ (463, 464 ∷ [])
    ∷ (465, 466 ∷ [])
    ∷ (467, 468 ∷ [])
    ∷ (469, 470 ∷ [])
    ∷ (471, 472 ∷ [])
    ∷ (473, 474 ∷ [])
    ∷ (475, 476 ∷ [])
    ∷ (478, 479 ∷ [])
    ∷ (480, 481 ∷ [])
    ∷ (482, 483 ∷ [])
    ∷ (484, 485 ∷ [])
    ∷ (486, 487 ∷ [])
    ∷ (488, 489 ∷ [])
    ∷ (490, 491 ∷ [])
    ∷ (492, 493 ∷ [])
    ∷ (494, 495 ∷ [])
    ∷ (496, 106 ∷ 780 ∷ [])
    ∷ (497, 499 ∷ [])
    ∷ (498, 499 ∷ [])
    ∷ (500, 501 ∷ [])
    ∷ (502, 405 ∷ [])
    ∷ (503, 447 ∷ [])
    ∷ (504, 505 ∷ [])
    ∷ (506, 507 ∷ [])
    ∷ (508, 509 ∷ [])
    ∷ (510, 511 ∷ [])
    ∷ (512, 513 ∷ [])
    ∷ (514, 515 ∷ [])
    ∷ (516, 517 ∷ [])
    ∷ (518, 519 ∷ [])
    ∷ (520, 521 ∷ [])
    ∷ (522, 523 ∷ [])
    ∷ (524, 525 ∷ [])
    ∷ (526, 527 ∷ [])
    ∷ (528, 529 ∷ [])
    ∷ (530, 531 ∷ [])
    ∷ (532, 533 ∷ [])
    ∷ (534, 535 ∷ [])
    ∷ (536, 537 ∷ [])
    ∷ (538, 539 ∷ [])
    ∷ (540, 541 ∷ [])
    ∷ (542, 543 ∷ [])
    ∷ (544, 414 ∷ [])
    ∷ (546, 547 ∷ [])
    ∷ (548, 549 ∷ [])
    ∷ (550, 551 ∷ [])
    ∷ (552, 553 ∷ [])
    ∷ (554, 555 ∷ [])
    ∷ (556, 557 ∷ [])
    ∷ (558, 559 ∷ [])
    ∷ (560, 561 ∷ [])
    ∷ (562, 563 ∷ [])
    ∷ (570, 11365 ∷ [])
    ∷ (571, 572 ∷ [])
    ∷ (573, 410 ∷ [])
    ∷ (574, 11366 ∷ [])
    ∷ (577, 578 ∷ [])
    ∷ (579, 384 ∷ [])
    ∷ (580, 649 ∷ [])
    ∷ (581, 652 ∷ [])
    ∷ (582, 583 ∷ [])
    ∷ (584, 585 ∷ [])
    ∷ (586, 587 ∷ [])
    ∷ (588, 589 ∷ [])
    ∷ (590, 591 ∷ [])
    ∷ (837, 953 ∷ [])
    ∷ (880, 881 ∷ [])
    ∷ (882, 883 ∷ [])
    ∷ (886, 887 ∷ [])
    ∷ (895, 1011 ∷ [])
    ∷ (902, 940 ∷ [])
    ∷ (904, 941 ∷ [])
    ∷ (905, 942 ∷ [])
    ∷ (906, 943 ∷ [])
    ∷ (908, 972 ∷ [])
    ∷ (910, 973 ∷ [])
    ∷ (911, 974 ∷ [])
    ∷ (912, 953 ∷ 776 ∷ 769 ∷ [])
    ∷ (913, 945 ∷ [])
    ∷ (914, 946 ∷ [])
    ∷ (915, 947 ∷ [])
    ∷ (916, 948 ∷ [])
    ∷ (917, 949 ∷ [])
    ∷ (918, 950 ∷ [])
    ∷ (919, 951 ∷ [])
    ∷ (920, 952 ∷ [])
    ∷ (921, 953 ∷ [])
    ∷ (922, 954 ∷ [])
    ∷ (923, 955 ∷ [])
    ∷ (924, 956 ∷ [])
    ∷ (925, 957 ∷ [])
    ∷ (926, 958 ∷ [])
    ∷ (927, 959 ∷ [])
    ∷ (928, 960 ∷ [])
    ∷ (929, 961 ∷ [])
    ∷ (931, 963 ∷ [])
    ∷ (932, 964 ∷ [])
    ∷ (933, 965 ∷ [])
    ∷ (934, 966 ∷ [])
    ∷ (935, 967 ∷ [])
    ∷ (936, 968 ∷ [])
    ∷ (937, 969 ∷ [])
    ∷ (938, 970 ∷ [])
    ∷ (939, 971 ∷ [])
    ∷ (944, 965 ∷ 776 ∷ 769 ∷ [])
    ∷ (962, 963 ∷ [])
    ∷ (975, 983 ∷ [])
    ∷ (976, 946 ∷ [])
    ∷ (977, 952 ∷ [])
    ∷ (981, 966 ∷ [])
    ∷ (982, 960 ∷ [])
    ∷ (984, 985 ∷ [])
    ∷ (986, 987 ∷ [])
    ∷ (988, 989 ∷ [])
    ∷ (990, 991 ∷ [])
    ∷ (992, 993 ∷ [])
    ∷ (994, 995 ∷ [])
    ∷ (996, 997 ∷ [])
    ∷ (998, 999 ∷ [])
    ∷ (1000, 1001 ∷ [])
    ∷ (1002, 1003 ∷ [])
    ∷ (1004, 1005 ∷ [])
    ∷ (1006, 1007 ∷ [])
    ∷ (1008, 954 ∷ [])
    ∷ []
