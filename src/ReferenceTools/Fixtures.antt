-- ===== src/ReferenceTools/Fixtures.antt =====
-- The synthetic tables of packages/tool_registry/tools.py.
use nervora.Base.{ℕ, String, List, [], ◌∷◌, Option, none, some, ◌==◌, if◌then◌else◌}
use nervora.Json.{Json, str, int, pos, Dict, end, entry}

-- `table.get(id)`
unfoldable pub row_of : List (String × Dict) → String → Option Dict
row_of [] id = none
row_of ((key, row) ∷ rows) id = if key == id then some row else row_of rows id

abbrev number : ℕ → Json
number n = int (pos n)

abbrev pub employees : List (String × Dict)
employees =
    (
      "E-1001",
      entry "employee_id" (str "E-1001") (
          entry "name" (str "Anika Brandt") (
            entry "title" (str "Staff Engineer") (
              entry "department_id" (str "FIN-100") (
                entry "email" (str "anika.brandt@example.com") (
                  entry "phone" (str "+49 151 23456789") (
                    entry "national_id" (str "123-45-6789") (
                      entry "salary" (number 118000)
                        (entry "address" (str "Hauptstrasse 5, 10115 Berlin") end)))))))),
    )
    ∷ (
      "E-2002",
      entry "employee_id" (str "E-2002") (
          entry "name" (str "Tomas Vogel") (
            entry "title" (str "Account Director") (
              entry "department_id" (str "SALES-200") (
                entry "email" (str "tomas.vogel@example.com") (
                  entry "phone" (str "+49 160 99887766") (
                    entry "national_id" (str "987-65-4321") (
                      entry "salary" (number 96000)
                        (entry "address" (str "Ringstrasse 12, 80331 Munich") end)))))))),
    )
    ∷ []

abbrev leave_row : ℕ → ℕ → ℕ → ℕ → Dict
leave_row total taken remaining sick = entry "annual_total" (number total) (
    entry "annual_taken" (number taken)
      (entry "annual_remaining" (number remaining) (entry "sick_taken" (number sick) end)))

abbrev pub leave : List (String × Dict)
leave = ("E-1001", leave_row 30 12 18 3) ∷ ("E-2002", leave_row 28 20 8 1) ∷ []

abbrev invoice_row : String → String → ℕ → String → String → Dict
invoice_row id vendor amount status due_date = entry "invoice_id" (str id) (
    entry "vendor" (str vendor) (
      entry "amount" (number amount) (
        entry "currency" (str "EUR")
          (entry "status" (str status) (entry "due_date" (str due_date) end)))))

abbrev pub invoices : List (String × Dict)
invoices =
    ("INV-5001", invoice_row "INV-5001" "Cloudworks GmbH" 24500 "paid" "2024-05-30")
    ∷ ("INV-5002", invoice_row "INV-5002" "DataPipe AG" 88200 "overdue" "2024-04-15")
    ∷ []

abbrev account_row : String → String → String → ℕ → Dict
account_row id name tier annual_value = entry "account_id" (str id) (
    entry "name" (str name) (
      entry "tier" (str tier)
        (entry "owner" (str "tomas.vogel") (entry "annual_value" (number annual_value) end))))

abbrev pub crm_accounts : List (String × Dict)
crm_accounts =
    ("ACC-300", account_row "ACC-300" "Helvetia Logistics" "silver" 120000)
    ∷ ("ACC-301", account_row "ACC-301" "Nordwind Retail" "bronze" 45000)
    ∷ []

abbrev customer_row : String → String → String → String → String → Dict
customer_row id name tier email phone = entry "customer_id" (str id) (
    entry "name" (str name) (
      entry "tier" (str tier) (
        entry "email" (str email)
          (entry "phone" (str phone) (entry "billing_currency" (str "EUR") end)))))

abbrev pub customers : List (String × Dict)
customers =
    (
      "CUST-700",
      customer_row "CUST-700" "Helvetia Logistics AG" "silver" "ap@helvetia-logistics.example"
          "+41 44 555 0100",
    )
    ∷ (
      "CUST-701",
      customer_row "CUST-701" "Nordwind Retail GmbH" "bronze" "finance@nordwind-retail.example"
          "+49 30 555 0199",
    )
    ∷ []
