-- ===== src/Account/CaseFold/FromAb70.antt =====
-- The rows of FULL_DEFAULT_CASE_FOLD in rust/src/api/account_envelope/unicode17_casefold.rs from
-- U+AB70 to U+1041A.
use openmls_dart.Prelude.{ℕ, List, [], ◌∷◌}

unfoldable pub folds_from_ab70 : List (ℕ × List ℕ)
folds_from_ab70 =
    (43888, 5024 ∷ [])
    ∷ (43889, 5025 ∷ [])
    ∷ (43890, 5026 ∷ [])
    ∷ (43891, 5027 ∷ [])
    ∷ (43892, 5028 ∷ [])
    ∷ (43893, 5029 ∷ [])
    ∷ (43894, 5030 ∷ [])
    ∷ (43895, 5031 ∷ [])
    ∷ (43896, 5032 ∷ [])
    ∷ (43897, 5033 ∷ [])
    ∷ (43898, 5034 ∷ [])
    ∷ (43899, 5035 ∷ [])
    ∷ (43900, 5036 ∷ [])
    ∷ (43901, 5037 ∷ [])
    ∷ (43902, 5038 ∷ [])
    ∷ (43903, 5039 ∷ [])
    ∷ (43904, 5040 ∷ [])
    ∷ (43905, 5041 ∷ [])
    ∷ (43906, 5042 ∷ [])
    ∷ (43907, 5043 ∷ [])
    ∷ (43908, 5044 ∷ [])
    ∷ (43909, 5045 ∷ [])
    ∷ (43910, 5046 ∷ [])
    ∷ (43911, 5047 ∷ [])
    ∷ (43912, 5048 ∷ [])
    ∷ (43913, 5049 ∷ [])
    ∷ (43914, 5050 ∷ [])
    ∷ (43915, 5051 ∷ [])
    ∷ (43916, 5052 ∷ [])
    ∷ (43917, 5053 ∷ [])
    ∷ (43918, 5054 ∷ [])
    ∷ (43919, 5055 ∷ [])
    ∷ (43920, 5056 ∷ [])
    ∷ (43921, 5057 ∷ [])
    ∷ (43922, 5058 ∷ [])
    ∷ (43923, 5059 ∷ [])
    ∷ (43924, 5060 ∷ [])
    ∷ (43925, 5061 ∷ [])
    ∷ (43926, 5062 ∷ [])
    ∷ (43927, 5063 ∷ [])
    ∷ (43928, 5064 ∷ [])
    ∷ (43929, 5065 ∷ [])
    ∷ (43930, 5066 ∷ [])
    ∷ (43931, 5067 ∷ [])
    ∷ (43932, 5068 ∷ [])
    ∷ (43933, 5069 ∷ [])
    ∷ (43934, 5070 ∷ [])
    ∷ (43935, 5071 ∷ [])
    ∷ (43936, 5072 ∷ [])
    ∷ (43937, 5073 ∷ [])
    ∷ (43938, 5074 ∷ [])
    ∷ (43939, 5075 ∷ [])
    ∷ (43940, 5076 ∷ [])
    ∷ (43941, 5077 ∷ [])
    ∷ (43942, 5078 ∷ [])
    ∷ (43943, 5079 ∷ [])
    ∷ (43944, 5080 ∷ [])
    ∷ (43945, 5081 ∷ [])
    ∷ (43946, 5082 ∷ [])
    ∷ (43947, 5083 ∷ [])
    ∷ (43948, 5084 ∷ [])
    ∷ (43949, 5085 ∷ [])
    ∷ (43950, 5086 ∷ [])
    ∷ (43951, 5087 ∷ [])
    ∷ (43952, 5088 ∷ [])
    ∷ (43953, 5089 ∷ [])
    ∷ (43954, 5090 ∷ [])
    ∷ (43955, 5091 ∷ [])
    ∷ (43956, 5092 ∷ [])
    ∷ (43957, 5093 ∷ [])
    ∷ (43958, 5094 ∷ [])
    ∷ (43959, 5095 ∷ [])
    ∷ (43960, 5096 ∷ [])
    ∷ (43961, 5097 ∷ [])
    ∷ (43962, 5098 ∷ [])
    ∷ (43963, 5099 ∷ [])
    ∷ (43964, 5100 ∷ [])
    ∷ (43965, 5101 ∷ [])
    ∷ (43966, 5102 ∷ [])
    ∷ (43967, 5103 ∷ [])
    ∷ (64256, 102 ∷ 102 ∷ [])
    ∷ (64257, 102 ∷ 105 ∷ [])
    ∷ (64258, 102 ∷ 108 ∷ [])
    ∷ (64259, 102 ∷ 102 ∷ 105 ∷ [])
    ∷ (64260, 102 ∷ 102 ∷ 108 ∷ [])
    ∷ (64261, 115 ∷ 116 ∷ [])
    ∷ (64262, 115 ∷ 116 ∷ [])
    ∷ (64275, 1396 ∷ 1398 ∷ [])
    ∷ (64276, 1396 ∷ 1381 ∷ [])
    ∷ (64277, 1396 ∷ 1387 ∷ [])
    ∷ (64278, 1406 ∷ 1398 ∷ [])
    ∷ (64279, 1396 ∷ 1389 ∷ [])
    ∷ (65313, 65345 ∷ [])
    ∷ (65314, 65346 ∷ [])
    ∷ (65315, 65347 ∷ [])
    ∷ (65316, 65348 ∷ [])
    ∷ (65317, 65349 ∷ [])
    ∷ (65318, 65350 ∷ [])
    ∷ (65319, 65351 ∷ [])
    ∷ (65320, 65352 ∷ [])
    ∷ (65321, 65353 ∷ [])
    ∷ (65322, 65354 ∷ [])
    ∷ (65323, 65355 ∷ [])
    ∷ (65324, 65356 ∷ [])
    ∷ (65325, 65357 ∷ [])
    ∷ (65326, 65358 ∷ [])
    ∷ (65327, 65359 ∷ [])
    ∷ (65328, 65360 ∷ [])
    ∷ (65329, 65361 ∷ [])
    ∷ (65330, 65362 ∷ [])
    ∷ (65331, 65363 ∷ [])
    ∷ (65332, 65364 ∷ [])
    ∷ (65333, 65365 ∷ [])
    ∷ (65334, 65366 ∷ [])
    ∷ (65335, 65367 ∷ [])
    ∷ (65336, 65368 ∷ [])
    ∷ (65337, 65369 ∷ [])
    ∷ (65338, 65370 ∷ [])
    ∷ (66560, 66600 ∷ [])
    ∷ (66561, 66601 ∷ [])
    ∷ (66562, 66602 ∷ [])
    ∷ (66563, 66603 ∷ [])
    ∷ (66564, 66604 ∷ [])
    ∷ (66565, 66605 ∷ [])
    ∷ (66566, 66606 ∷ [])
    ∷ (66567, 66607 ∷ [])
    ∷ (66568, 66608 ∷ [])
    ∷ (66569, 66609 ∷ [])
    ∷ (66570, 66610 ∷ [])
    ∷ (66571, 66611 ∷ [])
    ∷ (66572, 66612 ∷ [])
    ∷ (66573, 66613 ∷ [])
    ∷ (66574, 66614 ∷ [])
    ∷ (66575, 66615 ∷ [])
    ∷ (66576, 66616 ∷ [])
    ∷ (66577, 66617 ∷ [])
    ∷ (66578, 66618 ∷ [])
    ∷ (66579, 66619 ∷ [])
    ∷ (66580, 66620 ∷ [])
    ∷ (66581, 66621 ∷ [])
    ∷ (66582, 66622 ∷ [])
    ∷ (66583, 66623 ∷ [])
    ∷ (66584, 66624 ∷ [])
    ∷ (66585, 66625 ∷ [])
    ∷ (66586, 66626 ∷ [])
    ∷ []
