-- ===== src/Tests/ValueRuns.antt =====
-- Runs of agents/normalizers.py and src/tds/rpc_parse.py.
use sqlum_ai.Common.{◌≡◌, refl, none, some, [], ◌∷◌}
use sqlum_ai.Common.Text.{codes, text_eq}
use sqlum_ai.Normalizers.Datetime.{normalize_datetime}
use sqlum_ai.Normalizers.Numbers.{normalize_decimal, normalize_uuid}
use sqlum_ai.Normalizers.{
  normalize_date, normalize_phone_se, normalize_email, normalize_country_iso,
}
use sqlum_ai.Tds.Utf16.{encode_ignore}
use sqlum_ai.Tds.RpcParse.{extract_proc_and_params}

written_day : normalize_date (codes " 3/12-24 ") ≡ some (codes "2024-12-03", codes "date")
unfolding normalize_date
written_day = refl

three_digit_year : normalize_date (codes "1/2/123") ≡ some (codes "20123-02-01", codes "date")
unfolding normalize_date
three_digit_year = refl

iso_day : normalize_date (codes "2024-12-03") ≡ some (codes "2024-12-03", codes "date")
unfolding normalize_date
iso_day = refl

swedish_number :
    normalize_phone_se (codes "0046 (0)70-123") ≡ some (codes "+4670-123", codes "phone")
unfolding normalize_phone_se
swedish_number = refl

mail : normalize_email (codes " A.B@Example.COM") ≡ some (codes "a.b@example.com", codes "email")
unfolding normalize_email
mail = refl

no_mail : normalize_email (codes "a@b@c.d") ≡ none
unfolding normalize_email
no_mail = refl

country : normalize_country_iso (codes "Sverige") ≡ some (codes "SE", codes "country_iso")
unfolding normalize_country_iso text_eq
country = refl

rpc_params :
    extract_proc_and_params (encode_ignore (codes "dbo.Save @Phone='070', @Age=5"))
    ≡ (some (codes "dbo.Save"), (codes "Phone", codes "070") ∷ [])
unfolding extract_proc_and_params encode_ignore
rpc_params = refl

time_of_day :
    normalize_datetime (codes "2024/8/5 7:03")
    ≡ some (codes "2024-08-05T07:03:00", codes "datetime")
unfolding normalize_datetime
time_of_day = refl

no_day : normalize_datetime (codes "2023-02-29 10:00") ≡ none
unfolding normalize_datetime
no_day = refl

comma : normalize_decimal (codes "1 234,50") ≡ some (codes "1234.50", codes "decimal")
unfolding normalize_decimal
comma = refl

exponent : normalize_decimal (codes "-1e-3") ≡ some (codes "-0.001", codes "decimal")
unfolding normalize_decimal
exponent = refl

wrapped_uuid :
    normalize_uuid (codes "{0A1B2C3D-0000-1111-2222-333344445555}")
    ≡ some (codes "0a1b2c3d-0000-1111-2222-333344445555", codes "uuid")
unfolding normalize_uuid
wrapped_uuid = refl
