-- ===== src/Account/CaseFold/From0518.antt =====
-- The rows of FULL_DEFAULT_CASE_FOLD in rust/src/api/account_envelope/unicode17_casefold.rs from
-- U+0518 to U+1CB5.
use openmls_dart.Prelude.{ℕ, List, [], ◌∷◌}

unfoldable pub folds_from_0518 : List (ℕ × List ℕ)
folds_from_0518 =
    (1304, 1305 ∷ [])
    ∷ (1306, 1307 ∷ [])
    ∷ (1308, 1309 ∷ [])
    ∷ (1310, 1311 ∷ [])
    ∷ (1312, 1313 ∷ [])
    ∷ (1314, 1315 ∷ [])
    ∷ (1316, 1317 ∷ [])
    ∷ (1318, 1319 ∷ [])
    ∷ (1320, 1321 ∷ [])
    ∷ (1322, 1323 ∷ [])
    ∷ (1324, 1325 ∷ [])
    ∷ (1326, 1327 ∷ [])
    ∷ (1329, 1377 ∷ [])
    ∷ (1330, 1378 ∷ [])
    ∷ (1331, 1379 ∷ [])
    ∷ (1332, 1380 ∷ [])
    ∷ (1333, 1381 ∷ [])
    ∷ (1334, 1382 ∷ [])
    ∷ (1335, 1383 ∷ [])
    ∷ (1336, 1384 ∷ [])
    ∷ (1337, 1385 ∷ [])
    ∷ (1338, 1386 ∷ [])
    ∷ (1339, 1387 ∷ [])
    ∷ (1340, 1388 ∷ [])
    ∷ (1341, 1389 ∷ [])
    ∷ (1342, 1390 ∷ [])
    ∷ (1343, 1391 ∷ [])
    ∷ (1344, 1392 ∷ [])
    ∷ (1345, 1393 ∷ [])
    ∷ (1346, 1394 ∷ [])
    ∷ (1347, 1395 ∷ [])
    ∷ (1348, 1396 ∷ [])
    ∷ (1349, 1397 ∷ [])
    ∷ (1350, 1398 ∷ [])
    ∷ (1351, 1399 ∷ [])
    ∷ (1352, 1400 ∷ [])
    ∷ (1353, 1401 ∷ [])
    ∷ (1354, 1402 ∷ [])
    ∷ (1355, 1403 ∷ [])
    ∷ (1356, 1404 ∷ [])
    ∷ (1357, 1405 ∷ [])
    ∷ (1358, 1406 ∷ [])
    ∷ (1359, 1407 ∷ [])
    ∷ (1360, 1408 ∷ [])
    ∷ (1361, 1409 ∷ [])
    ∷ (1362, 1410 ∷ [])
    ∷ (1363, 1411 ∷ [])
    ∷ (1364, 1412 ∷ [])
    ∷ (1365, 1413 ∷ [])
    ∷ (1366, 1414 ∷ [])
    ∷ (1415, 1381 ∷ 1410 ∷ [])
    ∷ (4256, 11520 ∷ [])
    ∷ (4257, 11521 ∷ [])
    ∷ (4258, 11522 ∷ [])
    ∷ (4259, 11523 ∷ [])
    ∷ (4260, 11524 ∷ [])
    ∷ (4261, 11525 ∷ [])
    ∷ (4262, 11526 ∷ [])
    ∷ (4263, 11527 ∷ [])
    ∷ (4264, 11528 ∷ [])
    ∷ (4265, 11529 ∷ [])
    ∷ (4266, 11530 ∷ [])
    ∷ (4267, 11531 ∷ [])
    ∷ (4268, 11532 ∷ [])
    ∷ (4269, 11533 ∷ [])
    ∷ (4270, 11534 ∷ [])
    ∷ (4271, 11535 ∷ [])
    ∷ (4272, 11536 ∷ [])
    ∷ (4273, 11537 ∷ [])
    ∷ (4274, 11538 ∷ [])
    ∷ (4275, 11539 ∷ [])
    ∷ (4276, 11540 ∷ [])
    ∷ (4277, 11541 ∷ [])
    ∷ (4278, 11542 ∷ [])
    ∷ (4279, 11543 ∷ [])
    ∷ (4280, 11544 ∷ [])
    ∷ (4281, 11545 ∷ [])
    ∷ (4282, 11546 ∷ [])
    ∷ (4283, 11547 ∷ [])
    ∷ (4284, 11548 ∷ [])
    ∷ (4285, 11549 ∷ [])
    ∷ (4286, 11550 ∷ [])
    ∷ (4287, 11551 ∷ [])
    ∷ (4288, 11552 ∷ [])
    ∷ (4289, 11553 ∷ [])
    ∷ (4290, 11554 ∷ [])
    ∷ (4291, 11555 ∷ [])
    ∷ (4292, 11556 ∷ [])
    ∷ (4293, 11557 ∷ [])
    ∷ (4295, 11559 ∷ [])
    ∷ (4301, 11565 ∷ [])
    ∷ (5112, 5104 ∷ [])
    ∷ (5113, 5105 ∷ [])
    ∷ (5114, 5106 ∷ [])
    ∷ (5115, 5107 ∷ [])
    ∷ (5116, 5108 ∷ [])
    ∷ (5117, 5109 ∷ [])
    ∷ (7296, 1074 ∷ [])
    ∷ (7297, 1076 ∷ [])
    ∷ (7298, 1086 ∷ [])
    ∷ (7299, 1089 ∷ [])
    ∷ (7300, 1090 ∷ [])
    ∷ (7301, 1090 ∷ [])
    ∷ (7302, 1098 ∷ [])
    ∷ (7303, 1123 ∷ [])
    ∷ (7304, 42571 ∷ [])
    ∷ (7305, 7306 ∷ [])
    ∷ (7312, 4304 ∷ [])
    ∷ (7313, 4305 ∷ [])
    ∷ (7314, 4306 ∷ [])
    ∷ (7315, 4307 ∷ [])
    ∷ (7316, 4308 ∷ [])
    ∷ (7317, 4309 ∷ [])
    ∷ (7318, 4310 ∷ [])
    ∷ (7319, 4311 ∷ [])
    ∷ (7320, 4312 ∷ [])
    ∷ (7321, 4313 ∷ [])
    ∷ (7322, 4314 ∷ [])
    ∷ (7323, 4315 ∷ [])
    ∷ (7324, 4316 ∷ [])
    ∷ (7325, 4317 ∷ [])
    ∷ (7326, 4318 ∷ [])
    ∷ (7327, 4319 ∷ [])
    ∷ (7328, 4320 ∷ [])
    ∷ (7329, 4321 ∷ [])
    ∷ (7330, 4322 ∷ [])
    ∷ (7331, 4323 ∷ [])
    ∷ (7332, 4324 ∷ [])
    ∷ (7333, 4325 ∷ [])
    ∷ (7334, 4326 ∷ [])
    ∷ (7335, 4327 ∷ [])
    ∷ (7336, 4328 ∷ [])
    ∷ (7337, 4329 ∷ [])
    ∷ (7338, 4330 ∷ [])
    ∷ (7339, 4331 ∷ [])
    ∷ (7340, 4332 ∷ [])
    ∷ (7341, 4333 ∷ [])
    ∷ (7342, 4334 ∷ [])
    ∷ (7343, 4335 ∷ [])
    ∷ (7344, 4336 ∷ [])
    ∷ (7345, 4337 ∷ [])
    ∷ (7346, 4338 ∷ [])
    ∷ (7347, 4339 ∷ [])
    ∷ (7348, 4340 ∷ [])
    ∷ (7349, 4341 ∷ [])
    ∷ []
