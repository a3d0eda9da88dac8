-- ===== src/Issue.antt =====
-- app/core/issue_sync.py: the issues that the GitLab API returns, as far as the sync reads them.
-- A key that is missing is `none`; a key that is there holds a value of its type. A milestone,
-- iteration or epic that is there is a dict with at least one key.
pub mod Footer
pub mod Labels
pub mod Duration
pub mod Tests
use mirror_maestro.Common.{ℕ, Option, List}
use mirror_maestro.Text.{Text}

-- Of a milestone and of an iteration the title is read.
pub record Titled : Type 0 where
  pub title : Option Text

pub record Epic : Type 0 where
  pub epic_title : Option Text
  pub epic_iid : Option ℕ

pub record Assignee : Type 0 where
  pub name : Option Text
  pub username : Option Text

pub record TimeStats : Type 0 where
  pub time_estimate : ℕ
  pub total_time_spent : ℕ

pub record Issue : Type 0 where
  pub id : Option ℕ
  pub iid : Option ℕ
  pub title : Option Text
  pub description : Option Text
  pub labels : List Text
  pub state : Option Text
  pub weight : Option ℕ
  pub web_url : Option Text
  pub milestone : Option Titled
  pub iteration : Option Titled
  pub epic : Option Epic
  pub assignees : List Assignee
  pub time_stats : Option TimeStats
