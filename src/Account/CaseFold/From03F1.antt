-- ===== src/Account/CaseFold/From03F1.antt =====
-- The rows of FULL_DEFAULT_CASE_FOLD in rust/src/api/account_envelope/unicode17_casefold.rs from
-- U+03F1 to U+0516.
use openmls_dart.Prelude.{ℕ, List, [], ◌∷◌}

unfoldable pub folds_from_03f1 : List (ℕ × List ℕ)
folds_from_03f1 =
    (1009, 961 ∷ [])
    ∷ (1012, 952 ∷ [])
    ∷ (1013, 949 ∷ [])
    ∷ (1015, 1016 ∷ [])
    ∷ (1017, 1010 ∷ [])
    ∷ (1018, 1019 ∷ [])
    ∷ (1021, 891 ∷ [])
    ∷ (1022, 892 ∷ [])
    ∷ (1023, 893 ∷ [])
    ∷ (1024, 1104 ∷ [])
    ∷ (1025, 1105 ∷ [])
    ∷ (1026, 1106 ∷ [])
    ∷ (1027, 1107 ∷ [])
    ∷ (1028, 1108 ∷ [])
    ∷ (1029, 1109 ∷ [])
    ∷ (1030, 1110 ∷ [])
    ∷ (1031, 1111 ∷ [])
    ∷ (1032, 1112 ∷ [])
    ∷ (1033, 1113 ∷ [])
    ∷ (1034, 1114 ∷ [])
    ∷ (1035, 1115 ∷ [])
    ∷ (1036, 1116 ∷ [])
    ∷ (1037, 1117 ∷ [])
    ∷ (1038, 1118 ∷ [])
    ∷ (1039, 1119 ∷ [])
    ∷ (1040, 1072 ∷ [])
    ∷ (1041, 1073 ∷ [])
    ∷ (1042, 1074 ∷ [])
    ∷ (1043, 1075 ∷ [])
    ∷ (1044, 1076 ∷ [])
    ∷ (1045, 1077 ∷ [])
    ∷ (1046, 1078 ∷ [])
    ∷ (1047, 1079 ∷ [])
    ∷ (1048, 1080 ∷ [])
    ∷ (1049, 1081 ∷ [])
    ∷ (1050, 1082 ∷ [])
    ∷ (1051, 1083 ∷ [])
    ∷ (1052, 1084 ∷ [])
    ∷ (1053, 1085 ∷ [])
    ∷ (1054, 1086 ∷ [])
    ∷ (1055, 1087 ∷ [])
    ∷ (1056, 1088 ∷ [])
    ∷ (1057, 1089 ∷ [])
    ∷ (1058, 1090 ∷ [])
    ∷ (1059, 1091 ∷ [])
    ∷ (1060, 1092 ∷ [])
    ∷ (1061, 1093 ∷ [])
    ∷ (1062, 1094 ∷ [])
    ∷ (1063, 1095 ∷ [])
    ∷ (1064, 1096 ∷ [])
    ∷ (1065, 1097 ∷ [])
    ∷ (1066, 1098 ∷ [])
    ∷ (1067, 1099 ∷ [])
    ∷ (1068, 1100 ∷ [])
    ∷ (1069, 1101 ∷ [])
    ∷ (1070, 1102 ∷ [])
    ∷ (1071, 1103 ∷ [])
    ∷ (1120, 1121 ∷ [])
    ∷ (1122, 1123 ∷ [])
    ∷ (1124, 1125 ∷ [])
    ∷ (1126, 1127 ∷ [])
    ∷ (1128, 1129 ∷ [])
    ∷ (1130, 1131 ∷ [])
    ∷ (1132, 1133 ∷ [])
    ∷ (1134, 1135 ∷ [])
    ∷ (1136, 1137 ∷ [])
    ∷ (1138, 1139 ∷ [])
    ∷ (1140, 1141 ∷ [])
    ∷ (1142, 1143 ∷ [])
    ∷ (1144, 1145 ∷ [])
    ∷ (1146, 1147 ∷ [])
    ∷ (1148, 1149 ∷ [])
    ∷ (1150, 1151 ∷ [])
    ∷ (1152, 1153 ∷ [])
    ∷ (1162, 1163 ∷ [])
    ∷ (1164, 1165 ∷ [])
    ∷ (1166, 1167 ∷ [])
    ∷ (1168, 1169 ∷ [])
    ∷ (1170, 1171 ∷ [])
    ∷ (1172, 1173 ∷ [])
    ∷ (1174, 1175 ∷ [])
    ∷ (1176, 1177 ∷ [])
    ∷ (1178, 1179 ∷ [])
    ∷ (1180, 1181 ∷ [])
    ∷ (1182, 1183 ∷ [])
    ∷ (1184, 1185 ∷ [])
    ∷ (1186, 1187 ∷ [])
    ∷ (1188, 1189 ∷ [])
    ∷ (1190, 1191 ∷ [])
    ∷ (1192, 1193 ∷ [])
    ∷ (1194, 1195 ∷ [])
    ∷ (1196, 1197 ∷ [])
    ∷ (1198, 1199 ∷ [])
    ∷ (1200, 1201 ∷ [])
    ∷ (1202, 1203 ∷ [])
    ∷ (1204, 1205 ∷ [])
    ∷ (1206, 1207 ∷ [])
    ∷ (1208, 1209 ∷ [])
    ∷ (1210, 1211 ∷ [])
    ∷ (1212, 1213 ∷ [])
    ∷ (1214, 1215 ∷ [])
    ∷ (1216, 1231 ∷ [])
    ∷ (1217, 1218 ∷ [])
    ∷ (1219, 1220 ∷ [])
    ∷ (1221, 1222 ∷ [])
    ∷ (1223, 1224 ∷ [])
    ∷ (1225, 1226 ∷ [])
    ∷ (1227, 1228 ∷ [])
    ∷ (1229, 1230 ∷ [])
    ∷ (1232, 1233 ∷ [])
    ∷ (1234, 1235 ∷ [])
    ∷ (1236, 1237 ∷ [])
    ∷ (1238, 1239 ∷ [])
    ∷ (1240, 1241 ∷ [])
    ∷ (1242, 1243 ∷ [])
    ∷ (1244, 1245 ∷ [])
    ∷ (1246, 1247 ∷ [])
    ∷ (1248, 1249 ∷ [])
    ∷ (1250, 1251 ∷ [])
    ∷ (1252, 1253 ∷ [])
    ∷ (1254, 1255 ∷ [])
    ∷ (1256, 1257 ∷ [])
    ∷ (1258, 1259 ∷ [])
    ∷ (1260, 1261 ∷ [])
    ∷ (1262, 1263 ∷ [])
    ∷ (1264, 1265 ∷ [])
    ∷ (1266, 1267 ∷ [])
    ∷ (1268, 1269 ∷ [])
    ∷ (1270, 1271 ∷ [])
    ∷ (1272, 1273 ∷ [])
    ∷ (1274, 1275 ∷ [])
    ∷ (1276, 1277 ∷ [])
    ∷ (1278, 1279 ∷ [])
    ∷ (1280, 1281 ∷ [])
    ∷ (1282, 1283 ∷ [])
    ∷ (1284, 1285 ∷ [])
    ∷ (1286, 1287 ∷ [])
    ∷ (1288, 1289 ∷ [])
    ∷ (1290, 1291 ∷ [])
    ∷ (1292, 1293 ∷ [])
    ∷ (1294, 1295 ∷ [])
    ∷ (1296, 1297 ∷ [])
    ∷ (1298, 1299 ∷ [])
    ∷ (1300, 1301 ∷ [])
    ∷ (1302, 1303 ∷ [])
    ∷ []
