-- ===== src/Connectors/Fips/Three.antt =====
-- api/internal/connectors/fips.go, fipsCountry from "lr" to "lc".
use sentilyzer.Prelude.{[], ◌∷◌, Str}
use sentilyzer.Prelude.Text.{codes}
use sentilyzer.Prelude.Maps.{Map}

unfoldable pub fips_three : Map Str Str
fips_three =
    (codes "lr", codes "LI")
    ∷ (codes "libya", codes "LY")
    ∷ (codes "ly", codes "LY")
    ∷ (codes "liechtenstein", codes "LS")
    ∷ (codes "li", codes "LS")
    ∷ (codes "lithuania", codes "LH")
    ∷ (codes "lt", codes "LH")
    ∷ (codes "luxembourg", codes "LU")
    ∷ (codes "lu", codes "LU")
    ∷ (codes "macao", codes "MC")
    ∷ (codes "macau", codes "MC")
    ∷ (codes "mo", codes "MC")
    ∷ (codes "madagascar", codes "MA")
    ∷ (codes "mg", codes "MA")
    ∷ (codes "malawi", codes "MI")
    ∷ (codes "mw", codes "MI")
    ∷ (codes "malaysia", codes "MY")
    ∷ (codes "my", codes "MY")
    ∷ (codes "maldives", codes "MV")
    ∷ (codes "mv", codes "MV")
    ∷ (codes "mali", codes "ML")
    ∷ (codes "ml", codes "ML")
    ∷ (codes "malta", codes "MT")
    ∷ (codes "mt", codes "MT")
    ∷ (codes "marshall islands", codes "RM")
    ∷ (codes "mh", codes "RM")
    ∷ (codes "martinique", codes "MB")
    ∷ (codes "mq", codes "MB")
    ∷ (codes "mauritania", codes "MR")
    ∷ (codes "mr", codes "MR")
    ∷ (codes "mauritius", codes "MP")
    ∷ (codes "mu", codes "MP")
    ∷ (codes "mayotte", codes "MF")
    ∷ (codes "yt", codes "MF")
    ∷ (codes "mexico", codes "MX")
    ∷ (codes "mx", codes "MX")
    ∷ (codes "micronesia (federated states of)", codes "FM")
    ∷ (codes "micronesia", codes "FM")
    ∷ (codes "fm", codes "FM")
    ∷ (codes "moldova, republic of", codes "MD")
    ∷ (codes "moldova", codes "MD")
    ∷ (codes "md", codes "MD")
    ∷ (codes "monaco", codes "MN")
    ∷ (codes "mc", codes "MN")
    ∷ (codes "mongolia", codes "MG")
    ∷ (codes "mn", codes "MG")
    ∷ (codes "montenegro", codes "MJ")
    ∷ (codes "me", codes "MJ")
    ∷ (codes "montserrat", codes "MH")
    ∷ (codes "ms", codes "MH")
    ∷ (codes "morocco", codes "MO")
    ∷ (codes "ma", codes "MO")
    ∷ (codes "mozambique", codes "MZ")
    ∷ (codes "mz", codes "MZ")
    ∷ (codes "myanmar", codes "BM")
    ∷ (codes "burma", codes "BM")
    ∷ (codes "mm", codes "BM")
    ∷ (codes "namibia", codes "WA")
    ∷ (codes "na", codes "WA")
    ∷ (codes "nauru", codes "NR")
    ∷ (codes "nr", codes "NR")
    ∷ (codes "nepal", codes "NP")
    ∷ (codes "np", codes "NP")
    ∷ (codes "netherlands", codes "NL")
    ∷ (codes "nl", codes "NL")
    ∷ (codes "new caledonia", codes "NC")
    ∷ (codes "nc", codes "NC")
    ∷ (codes "new zealand", codes "NZ")
    ∷ (codes "nz", codes "NZ")
    ∷ (codes "nicaragua", codes "NU")
    ∷ (codes "ni", codes "NU")
    ∷ (codes "niger", codes "NG")
    ∷ (codes "ne", codes "NG")
    ∷ (codes "nigeria", codes "NI")
    ∷ (codes "ng", codes "NI")
    ∷ (codes "niue", codes "NE")
    ∷ (codes "nu", codes "NE")
    ∷ (codes "norfolk island", codes "NF")
    ∷ (codes "nf", codes "NF")
    ∷ (codes "north macedonia", codes "MK")
    ∷ (codes "macedonia", codes "MK")
    ∷ (codes "mk", codes "MK")
    ∷ (codes "northern mariana islands", codes "CQ")
    ∷ (codes "mp", codes "CQ")
    ∷ (codes "norway", codes "NO")
    ∷ (codes "no", codes "NO")
    ∷ (codes "oman", codes "MU")
    ∷ (codes "om", codes "MU")
    ∷ (codes "pakistan", codes "PK")
    ∷ (codes "pk", codes "PK")
    ∷ (codes "palau", codes "PS")
    ∷ (codes "pw", codes "PS")
    ∷ (codes "panama", codes "PM")
    ∷ (codes "pa", codes "PM")
    ∷ (codes "papua new guinea", codes "PP")
    ∷ (codes "pg", codes "PP")
    ∷ (codes "paraguay", codes "PA")
    ∷ (codes "py", codes "PA")
    ∷ (codes "peru", codes "PE")
    ∷ (codes "pe", codes "PE")
    ∷ (codes "philippines", codes "RP")
    ∷ (codes "ph", codes "RP")
    ∷ (codes "pitcairn", codes "PC")
    ∷ (codes "pitcairn islands", codes "PC")
    ∷ (codes "pn", codes "PC")
    ∷ (codes "poland", codes "PL")
    ∷ (codes "pl", codes "PL")
    ∷ (codes "portugal", codes "PO")
    ∷ (codes "pt", codes "PO")
    ∷ (codes "puerto rico", codes "RQ")
    ∷ (codes "pr", codes "RQ")
    ∷ (codes "qatar", codes "QA")
    ∷ (codes "qa", codes "QA")
    ∷ (codes "réunion", codes "RE")
    ∷ (codes "reunion", codes "RE")
    ∷ (codes "re", codes "RE")
    ∷ (codes "romania", codes "RO")
    ∷ (codes "ro", codes "RO")
    ∷ (codes "russian federation", codes "RS")
    ∷ (codes "russia", codes "RS")
    ∷ (codes "ru", codes "RS")
    ∷ (codes "rwanda", codes "RW")
    ∷ (codes "rw", codes "RW")
    ∷ (codes "saint barthélemy", codes "TB")
    ∷ (codes "saint barthelemy", codes "TB")
    ∷ (codes "bl", codes "TB")
    ∷ (codes "saint helena, ascension and tristan da cunha", codes "SH")
    ∷ (codes "saint helena", codes "SH")
    ∷ (codes "sh", codes "SH")
    ∷ (codes "saint kitts and nevis", codes "SC")
    ∷ (codes "kn", codes "SC")
    ∷ (codes "saint lucia", codes "ST")
    ∷ (codes "lc", codes "ST")
    ∷ []
