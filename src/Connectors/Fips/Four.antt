-- ===== src/Connectors/Fips/Four.antt =====
-- api/internal/connectors/fips.go, fipsCountry from "saint martin (french part)" to "zw".
use sentilyzer.Prelude.{[], ◌∷◌, Str}
use sentilyzer.Prelude.Text.{codes}
use sentilyzer.Prelude.Maps.{Map}

unfoldable pub fips_four : Map Str Str
fips_four =
    (codes "saint martin (french part)", codes "RN")
    ∷ (codes "saint martin", codes "RN")
    ∷ (codes "mf", codes "RN")
    ∷ (codes "saint pierre and miquelon", codes "SB")
    ∷ (codes "pm", codes "SB")
    ∷ (codes "saint vincent and the grenadines", codes "VC")
    ∷ (codes "vc", codes "VC")
    ∷ (codes "samoa", codes "WS")
    ∷ (codes "ws", codes "WS")
    ∷ (codes "san marino", codes "SM")
    ∷ (codes "sm", codes "SM")
    ∷ (codes "sao tome and principe", codes "TP")
    ∷ (codes "st", codes "TP")
    ∷ (codes "saudi arabia", codes "SA")
    ∷ (codes "sa", codes "SA")
    ∷ (codes "senegal", codes "SG")
    ∷ (codes "sn", codes "SG")
    ∷ (codes "serbia", codes "RI")
    ∷ (codes "rs", codes "RI")
    ∷ (codes "seychelles", codes "SE")
    ∷ (codes "sc", codes "SE")
    ∷ (codes "sierra leone", codes "SL")
    ∷ (codes "sl", codes "SL")
    ∷ (codes "singapore", codes "SN")
    ∷ (codes "sg", codes "SN")
    ∷ (codes "slovakia", codes "LO")
    ∷ (codes "sk", codes "LO")
    ∷ (codes "slovenia", codes "SI")
    ∷ (codes "si", codes "SI")
    ∷ (codes "solomon islands", codes "BP")
    ∷ (codes "sb", codes "BP")
    ∷ (codes "somalia", codes "SO")
    ∷ (codes "so", codes "SO")
    ∷ (codes "south africa", codes "SF")
    ∷ (codes "za", codes "SF")
    ∷ (codes "south georgia and the south sandwich islands", codes "SX")
    ∷ (codes "gs", codes "SX")
    ∷ (codes "south sudan", codes "OD")
    ∷ (codes "ss", codes "OD")
    ∷ (codes "spain", codes "SP")
    ∷ (codes "es", codes "SP")
    ∷ (codes "sri lanka", codes "CE")
    ∷ (codes "lk", codes "CE")
    ∷ (codes "sudan", codes "SU")
    ∷ (codes "sd", codes "SU")
    ∷ (codes "suriname", codes "NS")
    ∷ (codes "sr", codes "NS")
    ∷ (codes "svalbard", codes "SV")
    ∷ (codes "sweden", codes "SW")
    ∷ (codes "se", codes "SW")
    ∷ (codes "switzerland", codes "SZ")
    ∷ (codes "ch", codes "SZ")
    ∷ (codes "syrian arab republic", codes "SY")
    ∷ (codes "syria", codes "SY")
    ∷ (codes "sy", codes "SY")
    ∷ (codes "taiwan, province of china", codes "TW")
    ∷ (codes "taiwan", codes "TW")
    ∷ (codes "tw", codes "TW")
    ∷ (codes "tajikistan", codes "TI")
    ∷ (codes "tj", codes "TI")
    ∷ (codes "tanzania, united republic of", codes "TZ")
    ∷ (codes "tanzania", codes "TZ")
    ∷ (codes "tz", codes "TZ")
    ∷ (codes "thailand", codes "TH")
    ∷ (codes "th", codes "TH")
    ∷ (codes "timor-leste", codes "TT")
    ∷ (codes "east timor", codes "TT")
    ∷ (codes "tl", codes "TT")
    ∷ (codes "togo", codes "TO")
    ∷ (codes "tg", codes "TO")
    ∷ (codes "tokelau", codes "TL")
    ∷ (codes "tk", codes "TL")
    ∷ (codes "tonga", codes "TN")
    ∷ (codes "to", codes "TN")
    ∷ (codes "trinidad and tobago", codes "TD")
    ∷ (codes "tt", codes "TD")
    ∷ (codes "tunisia", codes "TS")
    ∷ (codes "tn", codes "TS")
    ∷ (codes "türkiye", codes "TU")
    ∷ (codes "turkiye", codes "TU")
    ∷ (codes "turkey", codes "TU")
    ∷ (codes "tr", codes "TU")
    ∷ (codes "turkmenistan", codes "TX")
    ∷ (codes "tm", codes "TX")
    ∷ (codes "turks and caicos islands", codes "TK")
    ∷ (codes "tc", codes "TK")
    ∷ (codes "tuvalu", codes "TV")
    ∷ (codes "tv", codes "TV")
    ∷ (codes "uganda", codes "UG")
    ∷ (codes "ug", codes "UG")
    ∷ (codes "ukraine", codes "UP")
    ∷ (codes "ua", codes "UP")
    ∷ (codes "united arab emirates", codes "AE")
    ∷ (codes "uae", codes "AE")
    ∷ (codes "ae", codes "AE")
    ∷ (codes "united kingdom of great britain and northern ireland", codes "UK")
    ∷ (codes "united kingdom", codes "UK")
    ∷ (codes "great britain", codes "UK")
    ∷ (codes "gb", codes "UK")
    ∷ (codes "uk", codes "UK")
    ∷ (codes "united states of america", codes "US")
    ∷ (codes "united states", codes "US")
    ∷ (codes "usa", codes "US")
    ∷ (codes "us", codes "US")
    ∷ (codes "uruguay", codes "UY")
    ∷ (codes "uy", codes "UY")
    ∷ (codes "uzbekistan", codes "UZ")
    ∷ (codes "uz", codes "UZ")
    ∷ (codes "vanuatu", codes "NH")
    ∷ (codes "vu", codes "NH")
    ∷ (codes "venezuela (bolivarian republic of)", codes "VE")
    ∷ (codes "venezuela", codes "VE")
    ∷ (codes "ve", codes "VE")
    ∷ (codes "viet nam", codes "VM")
    ∷ (codes "vietnam", codes "VM")
    ∷ (codes "vn", codes "VM")
    ∷ (codes "virgin islands (british)", codes "VI")
    ∷ (codes "british virgin islands", codes "VI")
    ∷ (codes "vg", codes "VI")
    ∷ (codes "virgin islands (u.s.)", codes "VQ")
    ∷ (codes "u.s. virgin islands", codes "VQ")
    ∷ (codes "vi", codes "VQ")
    ∷ (codes "wallis and futuna", codes "WF")
    ∷ (codes "wf", codes "WF")
    ∷ (codes "western sahara", codes "WI")
    ∷ (codes "eh", codes "WI")
    ∷ (codes "yemen", codes "YM")
    ∷ (codes "ye", codes "YM")
    ∷ (codes "zambia", codes "ZA")
    ∷ (codes "zm", codes "ZA")
    ∷ (codes "zimbabwe", codes "ZI")
    ∷ (codes "zw", codes "ZI")
    ∷ []
