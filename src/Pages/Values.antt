-- ===== src/Pages/Values.antt =====
-- `_event_type_zh`, `_value_text` and `_event_data_summary` of src/pages/scenario_dashboard/export_html.py.
-- A JSON value is read as its text where it is a number; `is_zero` is whether that number is 0.
pub mod Shown
use agent_server_platform.Base.{
  ℕ, zero, suc, ◌+◌, ◌-◌, String, ◌<>◌, Bool, true, false, not, ◌||◌, Option, none, some, List, [],
  ◌∷◌, ◌==◌, string_eq, if◌then◌else◌, contains, prefix,
}
use agent_server_platform.Base.Dict.{Dict, lookup}

mutual
  pub data Value : Type 0 where
    null : Value
    bool : Bool → Value
    number : (is_zero : Bool) → String → Value
    text : String → Value
    array : Items → Value
    object : Fields → Value

  pub data Items : Type 0 where
    end : Items
    item : Value → Items → Items

  pub data Fields : Type 0 where
    empty : Fields
    field : String → Value → Fields → Fields

-- The truth of a value.
abbrev pub is_truthy : Value → Bool
is_truthy null = false
is_truthy (bool b) = b
is_truthy (number is_zero s) = not is_zero
is_truthy (text s) = not (s == "")
is_truthy (array end) = false
is_truthy (array (item v vs)) = true
is_truthy (object empty) = false
is_truthy (object (field k v fs)) = true

-- `_VALUE_ZH`
abbrev pub value_zh : Dict String String
value_zh =
    ("simple_qa", "问答")
    ∷ ("code_execution", "代码执行")
    ∷ ("debate", "辩论")
    ∷ ("completed", "已完成")
    ∷ ("failed", "已失败")
    ∷ ("cancelled", "已取消")
    ∷ ("running", "运行中")
    ∷ ("initializing", "初始化中")
    ∷ ("pending", "待处理")
    ∷ ("success", "成功")
    ∷ ("timeout", "超时")
    ∷ ("scheduling", "调度")
    ∷ ("execution", "执行")
    ∷ []

-- `table.get(s, s)`
abbrev pub translated : Dict String String → String → String
unfolding lookup
translated table s = elim (lookup s table) [ none ↦ s | some t ↦ t ]

-- The first of the keys with a truthy value.
unfoldable pub first_text : List String → Dict String (Bool × String) → String
unfolding lookup
first_text [] texts = ""
first_text (k ∷ ks) texts =
    let rest = first_text ks texts in
    elim (lookup k texts) [ none ↦ rest | some (truthy, s) ↦ if truthy then s else rest ]

abbrev pub inner_keys : List String
inner_keys = "output" ∷ "goal" ∷ "error" ∷ "message" ∷ "name" ∷ []

-- `", ".join(...)`
unfoldable pub joined : String → List String → String
joined separator [] = ""
joined separator (s ∷ []) = s
joined separator (s ∷ t ∷ ss) = s <> separator <> joined separator (t ∷ ss)

unfoldable mutual
  unfolding first_text joined translated

  pub value_text : Value → String
  value_text null = ""
  value_text (bool b) = if b then "成功" else "失败"
  value_text (number is_zero s) = translated value_zh s
  value_text (text s) = translated value_zh s
  value_text (array vs) = joined ", " (item_texts vs)
  value_text (object fs) = first_text inner_keys (field_texts fs)

  -- The texts of the items that are truthy, and of the fields with their truth.
  pub item_texts : Items → List String
  item_texts end = []
  item_texts (item v vs) =
      let s = value_text v in let rest = item_texts vs in if is_truthy v then s ∷ rest else rest

  pub field_texts : Fields → Dict String (Bool × String)
  field_texts empty = []
  field_texts (field k v fs) = (k, (is_truthy v, value_text v)) ∷ field_texts fs

-- `_ID_KEYS`
abbrev pub id_keys : List String
id_keys =
    "scenario_id" ∷ "task_id" ∷ "parent_task_id" ∷ "topic_id" ∷ "agent_run_id" ∷ "agent_id"
    ∷ "trace_id" ∷ "idempotency_key" ∷ "id" ∷ "subtask_ids" ∷ "subtask_count" ∷ "task_state" ∷ []

-- `_DATA_KEY_ZH`
abbrev pub data_key_zh : Dict String String
data_key_zh =
    ("name", "名称")
    ∷ ("scenario_type", "类型")
    ∷ ("state", "状态")
    ∷ ("error", "错误")
    ∷ ("goal", "目标")
    ∷ ("result", "结果")
    ∷ ("success", "是否成功")
    ∷ ("role", "角色")
    ∷ ("question", "问题")
    ∷ ("message", "消息")
    ∷ ("released_runs", "释放Agent数")
    ∷ ("cancelled_tasks", "取消任务数")
    ∷ ("agent_type", "Agent类型")
    ∷ ("task_state", "任务状态")
    ∷ ("question_length", "问题长度")
    ∷ ("response_length", "回复长度")
    ∷ []

abbrev pub is_null : Value → Bool
is_null null = true
is_null _ = false

-- A field of a summary: its key and its text.
unfoldable pub is_hidden : String → Value → Bool
unfolding contains value_text
is_hidden k v = contains id_keys k || is_null v || (value_text v == "")

-- The loop with its break: the number is how many parts there may still be.
unfoldable pub shown_fields : ℕ → Fields → List (String × String)
unfolding is_hidden
shown_fields zero fs = []
shown_fields (suc n) empty = []
shown_fields (suc n) (field k v fs) =
    let skipped = shown_fields (suc n) fs in
    let shown = (k, prefix 100 (value_text v)) ∷ shown_fields n fs in
    if is_hidden k v then skipped else shown

abbrev pub labelled : List (String × String) → List String
unfolding translated
labelled [] = []
labelled ((k, s) ∷ parts) = (translated data_key_zh k <> "：" <> s) ∷ labelled parts

unfoldable pub event_data_summary : Fields → String
unfolding shown_fields labelled joined
event_data_summary fs = joined " | " (labelled (shown_fields 3 fs))
